-- ===== src/Graph/Descendants.antt =====
-- descendantsOf computes the nodes that depend on a node, directly or through others.
use opencode_alg.Base.{
  subst, String, Bool, true, false, ◌≡◌, ◌↔◌, refl, ◌∙◌, ◌||◌, ◌&&◌, All-Elem, List, [], ◌∷◌, ◌++◌,
  ◌⊎◌, inl, inr, All, Elem, has, any, any-eq-true, any_intro, arith, eq_iff, eq_refl, ◌==◌,
  if◌then◌else◌, Bool-cases,
}
use opencode_alg.Run.{NodeDef, GraphDef}
use opencode_alg.Graph.{set_add, descend, descendants_of}
use opencode_alg.Graph.Order.{IsOrdered, has_self, has_cons, ne_of_has}

-- The identifiers that reach `target` along dependencies of the definitions.
pub data Descends (defs : List NodeDef) (target : String) : String → Type 0 where
  child :
      (d : NodeDef) {id : String}
      → d.id ≡ id
      → Elem d defs
      → Elem target d.depends_on
      → Descends defs target id
  later :
      (d : NodeDef) {id dep : String}
      → d.id ≡ id
      → Elem d defs
      → Elem dep d.depends_on
      → Descends defs target dep
      → Descends defs target id

-- The test of descendantsOf on one definition.
abbrev pub depends_into : String → List String → NodeDef → Bool
depends_into target set d = any (λ dep. dep == target || has dep set) d.depends_on

has-snoc : (j id : String) (set : List String) → has j (set ++ id ∷ []) ≡ (has j set || id == j)
unfolding has
has-snoc j id [] = ground arith
has-snoc j id (k ∷ set) = ground (arith, has-snoc j id set)

pub has-set_add :
    (j id : String) (set : List String) → has j (set_add id set) ≡ (has j set || id == j)
unfolding set_add
has-set_add j id set = ground (arith, has-snoc j id set, eq_iff id j)

-- One round decides its own identifier, and no other that was seen.
abbrev add_if : String → List String → NodeDef → List String
add_if target set d = if depends_into target set d then set_add d.id set else set

has-add_if :
    (j target : String) (set : List String) (d : NodeDef)
    → has j (add_if target set d) ≡ (has j set || (d.id == j && depends_into target set d))
has-add_if j target set d = ground (arith, has-set_add j d.id set)

has-descend_seen :
    (target : String) (ds : List NodeDef) (seen set : List String)
    → IsOrdered seen ds
    → (j : String) → has j seen ≡ true
    → has j (descend target ds set) ≡ has j set
unfolding descend
has-descend_seen target [] seen set o j h = refl
has-descend_seen target (d ∷ ds) seen set (new, old, o) j h =
    has-descend_seen target ds (d.id ∷ seen) (add_if target set d) o j (has_cons j d.id seen h)
    ∙ ground (arith, has-add_if j target set d, eq_iff d.id j, ne_of_has d.id j seen new h)

-- The test of a definition over seen dependencies does not change by what is added later.
depends_into-eq :
    (target : String) (a b seen deps : List String)
    → ((j : String) → has j seen ≡ true → has j a ≡ has j b)
    → All (λ dep. has dep seen ≡ true) deps
    → any (λ dep. dep == target || has dep a) deps ≡ any (λ dep. dep == target || has dep b) deps
depends_into-eq target a b seen [] same old = refl
depends_into-eq target a b seen (dep ∷ deps) same (h, old) =
    ground (arith, same dep h, depends_into-eq target a b seen deps same old)

-- The result is closed: it holds each definition that depends on the target or on the result.
descend_closed :
    (target : String) (ds : List NodeDef) (seen set : List String)
    → IsOrdered seen ds
    → All
        (λ d.
          (depends_into target (descend target ds set) d ≡ false)
          ⊎ (has d.id (descend target ds set) ≡ true))
        ds
unfolding descend
descend_closed target [] seen set o = tt
descend_closed target (d ∷ ds) seen set (new, old, o) =
    let set' = add_if target set d in
    let final = descend target ds set' in
    (
      ground (
        arith,
        depends_into-eq target final set seen d.depends_on
            (has-descend_seen target (d ∷ ds) seen set (new, old, o)) old,
        has-descend_seen target ds (d.id ∷ seen) set' o d.id (has_self d.id seen),
        has-add_if d.id target set d,
        eq_refl d.id,
      ),
      descend_closed target ds (d.id ∷ seen) set' o,
    )

-- A closed set holds all descendants.
closed_complete :
    (target : String) (defs : List NodeDef) (set : List String)
    → All (λ d. (depends_into target set d ≡ false) ⊎ (has d.id set ≡ true)) defs
    → {id : String} → Descends defs target id
    → has id set ≡ true
closed_complete target defs set closed (child d {id} e m dep) = ground (
  arith,
  All-Elem _ defs closed d m,
  any_intro (λ j. j == target || has j set) target d.depends_on dep,
  eq_refl target,
)
closed_complete target defs set closed (later d {id} {dep} e m k below) = ground (
  arith,
  All-Elem _ defs closed d m,
  any_intro (λ j. j == target || has j set) dep d.depends_on k,
  closed_complete target defs set closed below,
)

-- What one definition adds descends from the target.
add_if-Descends :
    (defs : List NodeDef) (target : String) (set : List String) (d : NodeDef)
    → Elem d defs
    → ((j : String) → has j set ≡ true → Descends defs target j)
    → (j : String) → has j (add_if target set d) ≡ true
    → Descends defs target j
add_if-Descends defs target set d m sound j h = elim (Bool-cases (has j set)) [
  | inl old ↦ sound j old
  | inr fresh ↦
      let both : (d.id ≡ j) × (depends_into target set d ≡ true) =
        ground (arith, has-add_if j target set d, eq_iff d.id j) in
      let (dep, k, hit) = any-eq-true (λ dep. dep == target || has dep set) d.depends_on both.1 in
      elim (Bool-cases (dep == target)) [
        | inl e ↦ child d both.0 m (subst (λ x. Elem x d.depends_on) ((eq_iff dep target).0 e) k)
        | inr e ↦ later d both.0 m k (sound dep (ground arith))
      ]
]

descend-Descends :
    (defs : List NodeDef) (target : String) (ds : List NodeDef) (set : List String)
    → ((d : NodeDef) → Elem d ds → Elem d defs)
    → ((j : String) → has j set ≡ true → Descends defs target j)
    → (j : String) → has j (descend target ds set) ≡ true
    → Descends defs target j
unfolding descend
descend-Descends defs target [] set within sound = sound
descend-Descends defs target (d ∷ ds) set within sound =
    descend-Descends defs target ds (add_if target set d) (λ e m. within e (inr m))
      (add_if-Descends defs target set d (within d (inl refl)) sound)

-- On a topologically ordered graph descendantsOf returns exactly the nodes that depend on the
-- given one, directly or through other nodes.
pub descendants_of_iff :
    (graph : GraphDef) (target id : String)
    → IsOrdered [] graph.nodes
    → (has id (descendants_of graph target) ≡ true) ↔ Descends graph.nodes target id
unfolding descendants_of has
descendants_of_iff graph target id o = (
  descend-Descends graph.nodes target graph.nodes [] (λ d m. m) (λ j h. cc) id,
  closed_complete target graph.nodes (descendants_of graph target)
      (descend_closed target graph.nodes [] [] o),
)
