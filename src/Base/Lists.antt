-- ===== src/Base/Lists.antt =====
-- Lists under native indices, JavaScript's array methods with Boolean tests, and their laws.
use Prim.Native.Nat.{ℕ, zero, suc, ◌+◌}
use mathlib.Core.Path.{◌≡◌, refl, ap, sym, subst}
use mathlib.Core.Logic.{◌↔◌, ◌⊎◌, inl, inr}
use mathlib.Core.Bool.{Bool, true, false, ◌&&◌, ◌||◌}
use mathlib.Core.List.{List, [], ◌∷◌, ◌++◌}
use mathlib.Core.Option.{Option, none, some}
use native.Mathlib.Omega.{arith}
use opencode_alg.Base.Tests.{if◌then◌else◌, Bool-cases}

module _ {ℓ} {A : Type ℓ} where
  abbrev pub length : List A → ℕ
  length [] = 0
  length (x ∷ xs) = suc (length xs)

  abbrev pub take : ℕ → List A → List A
  take zero xs = []
  take (suc n) [] = []
  take (suc n) (x ∷ xs) = x ∷ take n xs

  abbrev pub drop : ℕ → List A → List A
  drop zero xs = xs
  drop (suc n) [] = []
  drop (suc n) (x ∷ xs) = drop n xs

  -- `xs.at(-1)`
  abbrev pub last? : List A → Option A
  last? [] = none
  last? (x ∷ []) = some x
  last? (x ∷ y ∷ xs) = last? (y ∷ xs)

  -- Writes the last element of an array; of an empty one nothing.
  abbrev pub map_last : (A → A) → List A → List A
  map_last f [] = []
  map_last f (x ∷ []) = f x ∷ []
  map_last f (x ∷ y ∷ xs) = x ∷ map_last f (y ∷ xs)

  -- `xs.every(p)`, `xs.some(p)`, `xs.filter(p)` and `xs.find(p)`
  abbrev pub every : (A → Bool) → List A → Bool
  every p [] = true
  every p (x ∷ xs) = p x && every p xs

  abbrev pub any : (A → Bool) → List A → Bool
  any p [] = false
  any p (x ∷ xs) = p x || any p xs

  abbrev pub filter : (A → Bool) → List A → List A
  filter p [] = []
  filter p (x ∷ xs) = let rest = filter p xs in if p x then x ∷ rest else rest

  abbrev pub find : (A → Bool) → List A → Option A
  find p [] = none
  find p (x ∷ xs) = let rest = find p xs in if p x then some x else rest

  abbrev pub All {κ} : (A → Type κ) → List A → Type κ
  All P [] = Unit
  All P (x ∷ xs) = P x × All P xs

  pub length-append : (xs ys : List A) → length (xs ++ ys) ≡ length xs + length ys
  length-append [] ys = omega arith
  length-append (x ∷ xs) ys = omega (arith, length-append xs ys)

  pub length-map_last : (f : A → A) (xs : List A) → length (map_last f xs) ≡ length xs
  length-map_last f [] = refl
  length-map_last f (x ∷ []) = refl
  length-map_last f (x ∷ y ∷ xs) = ap suc (length-map_last f (y ∷ xs))

  pub last?-append : (xs : List A) (a : A) → last? (xs ++ a ∷ []) ≡ some a
  last?-append [] a = refl
  last?-append (x ∷ []) a = refl
  last?-append (x ∷ y ∷ xs) a = last?-append (y ∷ xs) a

-- Membership is stated for the data of the program, which stands in `Type 0`.
module _ {A : Type 0} where
  -- Membership, with the place kept.
  abbrev pub Elem : A → List A → Type 0
  Elem a [] = ⊥
  Elem a (x ∷ xs) = (a ≡ x) ⊎ Elem a xs

  pub every-Elem : (p : A → Bool) (a : A) (xs : List A) → Elem a xs → every p xs ≡ true → p a ≡ true
  every-Elem p a [] m h = absurd m
  every-Elem p a (x ∷ xs) m h = ground (arith, every-Elem p a xs)

  pub every_intro :
      (p : A → Bool) (xs : List A) → ((a : A) → Elem a xs → p a ≡ true) → every p xs ≡ true
  every_intro p [] h = refl
  every_intro p (x ∷ xs) h = ground (arith, h x (inl refl), every_intro p xs (λ a m. h a (inr m)))

  pub any-eq-true :
      (p : A → Bool) (xs : List A) → any p xs ≡ true → (a : A) × Elem a xs × (p a ≡ true)
  any-eq-true p [] h = cc
  any-eq-true p (x ∷ xs) h = elim (Bool-cases (p x)) [
    | inl e ↦ (x, inl refl, e)
    | inr e ↦ let (a, m, q) = any-eq-true p xs (ground arith) in (a, inr m, q)
  ]

  pub any_intro : (p : A → Bool) (a : A) (xs : List A) → Elem a xs → p a ≡ true → any p xs ≡ true
  any_intro p a [] m e = absurd m
  any_intro p a (x ∷ xs) m e = ground (arith, any_intro p a xs)

  pub find-eq-none :
      (p : A → Bool) (a : A) (xs : List A) → find p xs ≡ none → Elem a xs → p a ≡ false
  find-eq-none p a [] h m = absurd m
  find-eq-none p a (x ∷ xs) h m = ground (arith, find-eq-none p a xs)

  pub find-eq-some :
      (p : A → Bool) (a : A) (xs : List A) → find p xs ≡ some a → Elem a xs × (p a ≡ true)
  find-eq-some p a [] h = cc
  find-eq-some p a (x ∷ xs) h = ground (arith, find-eq-some p a xs)

  pub Elem-filter :
      (p : A → Bool) (a : A) (xs : List A) → Elem a (filter p xs) ↔ (Elem a xs × (p a ≡ true))
  Elem-filter p a [] = (λ m. absurd m, λ (m, e). absurd m)
  Elem-filter p a (x ∷ xs) = ground (arith, Elem-filter p a xs)

  pub All-Elem : (P : A → Type 0) (xs : List A) → All P xs → (a : A) → Elem a xs → P a
  All-Elem P [] h a m = absurd m
  All-Elem P (x ∷ xs) (h, hs) a (inl e) = subst P (sym e) h
  All-Elem P (x ∷ xs) (h, hs) a (inr m) = All-Elem P xs hs a m

  pub All_intro : (P : A → Type 0) (xs : List A) → ((a : A) → Elem a xs → P a) → All P xs
  All_intro P [] h = tt
  All_intro P (x ∷ xs) h = (h x (inl refl), All_intro P xs (λ a m. h a (inr m)))

-- A list that is put together from empty parts only is empty.
pub append-eq-nil {ℓ} : {A : Type ℓ} (xs ys : List A) → xs ++ ys ≡ [] → (xs ≡ []) × (ys ≡ [])
append-eq-nil [] ys h = (refl, h)
append-eq-nil (x ∷ xs) ys h = cc
