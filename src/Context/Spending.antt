-- ===== src/Context/Spending.antt =====
-- Parts that are rendered in order, each within its allowance, share the normal target.
use opencode_alg.Base.{
  ℕ, ◌+◌, ◌-◌, ◌*◌, ◌/◌, ◌≤◌, max, true, false, Option, none, some, List, [], ◌∷◌, ◌++◌, ◌≡◌, refl,
  sym, subst, ltb, Bool-cases, inl, inr, arith, ap, ◌∙◌, length, ◌||◌,
}
use opencode_alg.Context.Plan.{
  ContextPart, same_part, includes, ContextBudgetOptions, ModelWindow, CallKind, ContextPlan,
  active_parts, normal_bytes, base_share, known_plan, plan_context, sum_over, Spent, spent_on,
  or_zero, spend, spent_bytes, carried, overspent, earlier_parts, allow, positive,
}
use mathlib.Core.List.{append-nil, append_assoc}
use opencode_alg.Context.Bounds.{plan_context-known}
use native.Mathlib.Nat.{
  mul_comm, div-mul-le_self, le_of_mul-le-mul_right, add-mul, mul-add, mul-le-mul_right, le_trans,
}

-- The parts of a plan from one on are rendered: each is left out, or spends at most what it is allowed.
pub data Renders (base : ContextPart → ℕ) (active : List ContextPart)
    : List ContextPart → Spent → Spent → Type 0 where
  finished : {s : Spent} → Renders base active [] s s
  left_out :
      {part : ContextPart} {rest : List ContextPart} {s t : Spent}
      → Renders base active rest s t
      → Renders base active (part ∷ rest) s t
  rendered :
      {part : ContextPart} {rest : List ContextPart} {s t : Spent} (bytes limit : ℕ)
      → allow base s active part ≡ some limit
      → bytes ≤ limit
      → Renders base active rest (spend part bytes s) t
      → Renders base active (part ∷ rest) s t

abbrev IsDistinct : List ContextPart → Type 0
IsDistinct [] = Unit
IsDistinct (part ∷ parts) = (includes part parts ≡ false) × IsDistinct parts

active_parts-IsDistinct : (parts : List ContextPart) → IsDistinct (active_parts parts)
unfolding active_parts
active_parts-IsDistinct parts = ground arith

sum_over-append :
    (f : ContextPart → ℕ) (ps qs : List ContextPart)
    → sum_over f (ps ++ qs) ≡ sum_over f ps + sum_over f qs
unfolding sum_over
sum_over-append f [] qs = omega arith
sum_over-append f (p ∷ ps) qs = omega (arith, sum_over-append f ps qs)

same_part-eq : (p q : ContextPart) → same_part p q ≡ true → p ≡ q
same_part-eq p q h = ground arith

same_part_self : (p : ContextPart) → same_part p p ≡ true
same_part_self p = ground arith

spent_on-spend :
    (p q : ContextPart) (n : ℕ) (s : Spent)
    → same_part q p ≡ false
    → spent_on q (spend p n s) ≡ spent_on q s
unfolding spent_on spend
spent_on-spend p q n [] h = ground arith
spent_on-spend p q n ((r, m) ∷ s) h = ground (arith, spent_on-spend p q n s h)

spent_on-spend_self :
    (p : ContextPart) (n : ℕ) (s : Spent) → spent_on p s ≡ none → spent_on p (spend p n s) ≡ some n
unfolding spent_on spend
spent_on-spend_self p n [] h = ground arith
spent_on-spend_self p n ((r, m) ∷ s) h = ground (arith, spent_on-spend_self p n s)

spent_bytes-spend :
    (p : ContextPart) (n : ℕ) (s : Spent) → spent_bytes (spend p n s) ≡ spent_bytes s + n
unfolding spent_bytes spend
spent_bytes-spend p n [] = omega arith
spent_bytes-spend p n ((r, m) ∷ s) = ground (arith, spent_bytes-spend p n s)

module _ (base : ContextPart → ℕ) (spent : Spent) where
  abbrev or_none : Option ℕ → ℕ → ℕ
  or_none none n = 0
  or_none (some m) n = n

  abbrev written : List ContextPart → ℕ
  written earlier = sum_over (λ p. or_zero (spent_on p spent)) earlier

  -- The base shares of the parts that have reported what they spent.
  abbrev reported : List ContextPart → ℕ
  reported earlier = sum_over (λ p. or_none (spent_on p spent) (base p)) earlier

  balance :
      (earlier : List ContextPart)
      → carried base spent earlier + written earlier
        ≡ overspent base spent earlier + reported earlier
  unfolding carried overspent sum_over
  balance [] = refl
  balance (p ∷ ps) = ground (arith, balance ps)

  reported-le : (earlier : List ContextPart) → reported earlier ≤ sum_over base earlier
  unfolding sum_over
  reported-le [] = omega arith
  reported-le (p ∷ ps) = ground (arith, reported-le ps)

earlier_parts-append :
    (p : ContextPart) (earlier rest : List ContextPart)
    → includes p earlier ≡ false
    → earlier_parts p (earlier ++ p ∷ rest) ≡ some earlier
unfolding earlier_parts
earlier_parts-append p [] rest h = ground (arith, same_part_self p)
earlier_parts-append p (q ∷ earlier) rest h = ground (arith, earlier_parts-append p earlier rest)

same_part_comm : (p q : ContextPart) → same_part p q ≡ same_part q p
same_part_comm p q = ground arith

includes-append :
    (q : ContextPart) (ps rs : List ContextPart)
    → includes q (ps ++ rs) ≡ (includes q ps || includes q rs)
includes-append q [] rs = refl
includes-append q (p ∷ ps) rs = ground (arith, includes-append q ps rs)

not-includes :
    (p : ContextPart) (earlier rest : List ContextPart)
    → IsDistinct (earlier ++ p ∷ rest)
    → (includes p earlier ≡ false) × (includes p rest ≡ false)
not-includes p [] rest h = ground arith
not-includes p (q ∷ earlier) rest (h, hs) = ground (
  arith,
  not-includes p earlier rest hs,
  includes-append q earlier (p ∷ rest),
  same_part_comm q p,
)

-- A sum over other parts does not see what a part spends.
written-spend :
    (base : ContextPart → ℕ) (p : ContextPart) (n : ℕ) (s : Spent) (earlier : List ContextPart)
    → includes p earlier ≡ false
    → (written base (spend p n s) earlier ≡ written base s earlier)
      × (reported base (spend p n s) earlier ≡ reported base s earlier)
unfolding sum_over
written-spend base p n s [] h = (refl, refl)
written-spend base p n s (q ∷ earlier) h =
    ground (arith, written-spend base p n s earlier, spent_on-spend p q n s)

-- What holds between two parts: everything spent stands under the earlier parts, and is covered by the base shares of those that reported.
record IsSettled (base : ContextPart → ℕ) (earlier rest : List ContextPart) (s : Spent)
    : Type 0 where
  total : spent_bytes s ≡ written base s earlier
  covered : spent_bytes s ≤ reported base s earlier
  fresh : (p : ContextPart) → includes p rest ≡ true → spent_on p s ≡ none

module _ (base : ContextPart → ℕ) (part : ContextPart) (earlier rest : List ContextPart)
    (s : Spent) where
  left_out-IsSettled :
      IsSettled base earlier (part ∷ rest) s → IsSettled base (earlier ++ part ∷ []) rest s
  unfolding sum_over
  left_out-IsSettled h = record {
    total =
        let unused = h.fresh part (ground (arith, same_part_self part)) in
        let parts = sum_over-append (λ p. or_zero (spent_on p s)) earlier (part ∷ []) in
        ground (arith, h.total);
    covered =
        let unused = h.fresh part (ground (arith, same_part_self part)) in
        let parts =
          sum_over-append (λ p. or_none base s (spent_on p s) (base p)) earlier (part ∷ []) in
        ground (arith, h.covered);
    fresh = λ p e. h.fresh p (ground arith);
  }

  rendered-IsSettled :
      (bytes limit : ℕ)
      → includes part earlier ≡ false
      → includes part rest ≡ false
      → base part + carried base s earlier - overspent base s earlier ≡ limit
      → bytes ≤ limit
      → IsSettled base earlier (part ∷ rest) s
      → IsSettled base (earlier ++ part ∷ []) rest (spend part bytes s)
  unfolding sum_over
  rendered-IsSettled bytes limit away apart l le h =
      let unused = h.fresh part (ground (arith, same_part_self part)) in
      let now = spent_on-spend_self part bytes s unused in
      let same = written-spend base part bytes s earlier away in
      let bal = balance base s earlier in
      record {
        total =
            let parts =
              sum_over-append (λ p. or_zero (spent_on p (spend part bytes s))) earlier
                (part ∷ []) in
            ground (arith, h.total, spent_bytes-spend part bytes s);
        covered =
            let parts =
              sum_over-append (λ p. or_none base s (spent_on p (spend part bytes s)) (base p))
                earlier (part ∷ []) in
            ground (arith, h.covered, h.total, spent_bytes-spend part bytes s);
        fresh = λ p e.
            spent_on-spend part p bytes s (elim (Bool-cases (same_part p part)) [
              | inl e' ↦ absurd (ground (arith, same_part-eq p part))
              | inr e'' ↦ e''
            ])
            ∙ h.fresh p (ground arith);
      }

allow-place :
    (base : ContextPart → ℕ) (part : ContextPart) (earlier : List ContextPart) (s : Spent)
    (active : List ContextPart) (limit : ℕ)
    → earlier_parts part active ≡ some earlier
    → spent_on part s ≡ none
    → allow base s active part ≡ some limit
    → base part + carried base s earlier - overspent base s earlier ≡ limit
unfolding allow
allow-place base part earlier s active limit place unused allowed =
    let seen : some (base part + carried base s earlier - overspent base s earlier - 0)
        ≡ some limit =
      sym (rw (place, unused, allow) refl) ∙ allowed in
    ground (arith, seen)

module _ (base : ContextPart → ℕ) (active : List ContextPart) (distinct : IsDistinct active) where
  Renders-bound :
      (earlier rest : List ContextPart) (s t : Spent)
      → Renders base active rest s t
      → active ≡ earlier ++ rest
      → IsSettled base earlier rest s
      → spent_bytes t ≤ sum_over base active
  Renders-bound earlier [] s t finished split h =
      let whole : active ≡ earlier = split ∙ append-nil earlier in
      rw whole (omega (arith, h.covered, reported-le base s earlier))
  Renders-bound earlier (part ∷ rest) s t (left_out more) split h =
      Renders-bound (earlier ++ part ∷ []) rest s t more
        (split ∙ sym (append_assoc earlier (part ∷ []) rest))
        (left_out-IsSettled base part earlier rest s h)
  Renders-bound earlier (part ∷ rest) s t (rendered bytes limit allowed le more) split h =
      let (away, apart) = not-includes part earlier rest (subst IsDistinct split distinct) in
      let place : earlier_parts part active ≡ some earlier =
        ap (earlier_parts part) split ∙ earlier_parts-append part earlier rest away in
      let known =
        allow-place base part earlier s active limit place
          (h.fresh part (ground (arith, same_part_self part))) allowed in
      Renders-bound (earlier ++ part ∷ []) rest (spend part bytes s) t more
        (split ∙ sym (append_assoc earlier (part ∷ []) rest))
        (rendered-IsSettled base part earlier rest s bytes limit away apart known le h)

sum_over-ext :
    (f g : ContextPart → ℕ) (parts : List ContextPart)
    → ((p : ContextPart) → f p ≡ g p)
    → sum_over f parts ≡ sum_over g parts
unfolding sum_over
sum_over-ext f g [] h = refl
sum_over-ext f g (p ∷ parts) h = rw (h p, sum_over-ext f g parts h) refl

le-one-max : (n : ℕ) → n ≤ max 1 n
le-one-max n = omega arith

-- The base shares of all parts are within the normal target.
module _ (shares : ContextPart → ℕ) (normal : ℕ) where
  weighted :
      (weights : ℕ) (parts : List ContextPart)
      → sum_over (λ p. normal * shares p / weights) parts * weights ≤ normal * sum_over shares parts
  unfolding sum_over
  weighted weights [] = ground arith
  weighted weights (p ∷ parts) = omega (
    arith,
    weighted weights parts,
    div-mul-le_self (normal * shares p) weights,
    add-mul (normal * shares p / weights) (sum_over (λ p. normal * shares p / weights) parts)
        weights,
    mul-add normal (shares p) (sum_over shares parts),
  )

  even : (share : ℕ) (parts : List ContextPart) → sum_over (λ p. share) parts ≡ length parts * share
  unfolding sum_over
  even share [] = omega arith
  even share (p ∷ parts) = omega (arith, even share parts, add-mul 1 (length parts) share)

  base_share-within :
      (active : List ContextPart) → sum_over (base_share shares normal active) active ≤ normal
  unfolding base_share
  base_share-within active = elim (Bool-cases (ltb 0 (sum_over shares active))) [
    | inl e ↦
        rw
          (sum_over-ext (base_share shares normal active)
            (λ p. normal * shares p / sum_over shares active) active (λ p. rw (e, base_share) refl))
          (le_of_mul-le-mul_right {k = sum_over shares active}
            (weighted (sum_over shares active) active) (ground arith))
    | inr e ↦
        rw
          (
            sum_over-ext (base_share shares normal active) (λ p. normal / max 1 (length active))
                active (λ p. rw (e, base_share) refl),
            even (normal / max 1 (length active)) active,
          )
          (omega (
            arith,
            div-mul-le_self normal (max 1 (length active)),
            mul-le-mul_right (normal / max 1 (length active)) (le-one-max (length active)),
            mul_comm (normal / max 1 (length active)) (max 1 (length active)),
          ))
  ]

-- Where the parts of a plan for a known window are rendered in their order, each left out or within
-- what it is allowed when its turn comes, they spend no more than the normal target together.
pub Renders-within :
    (options : ContextBudgetOptions) (window : ModelWindow) (kind : CallKind)
    (parts : List ContextPart) (context : ℕ) (plan : ContextPlan) (spent : Spent)
    → positive window.context ≡ some context
    → plan_context options window kind parts ≡ some plan
    → Renders plan.base plan.active plan.active [] spent
    → spent_bytes spent ≤ plan.normal
unfolding known_plan spent_bytes spent_on
Renders-within options window kind parts context plan spent w p renders =
    let known = plan_context-known options window kind parts context plan w p in
    let active = active_parts parts in
    let normal = normal_bytes options context window kind active in
    let h : IsSettled (base_share options.shares normal active) [] active [] = record {
      total = refl;
      covered = omega arith;
      fresh = λ p e. refl;
    } in
    subst
      (λ (q : ContextPlan).
        Renders q.base q.active q.active [] spent → spent_bytes spent ≤ q.normal)
      known
      (λ r.
        le_trans
          (Renders-bound (base_share options.shares normal active) active
            (active_parts-IsDistinct parts) [] active [] spent r refl h)
          (base_share-within options.shares normal active))
      renders
