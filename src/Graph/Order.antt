-- ===== src/Graph/Order.antt =====
-- Topological order of the definitions, which the graph schema enforces.
use opencode_alg.Base.{
  sym, ◌∙◌, subst, Elem, inl, inr, String, true, false, ◌≡◌, ◌≢◌, List, [], ◌∷◌, All, has, arith,
  eq_refl,
}
use opencode_alg.Run.{NodeDef}

-- Each definition's identifier is new, and its dependencies are among those seen before it.
abbrev pub IsOrdered : List String → List NodeDef → Type 0
IsOrdered seen [] = Unit
IsOrdered seen (d ∷ ds) =
    (has d.id seen ≡ false)
    × All (λ dep. has dep seen ≡ true) d.depends_on
    × IsOrdered (d.id ∷ seen) ds

pub has_self : (id : String) (ids : List String) → has id (id ∷ ids) ≡ true
unfolding has
has_self id ids = ground (arith, eq_refl id)

pub has_cons : (id j : String) (ids : List String) → has id ids ≡ true → has id (j ∷ ids) ≡ true
unfolding has
has_cons id j ids h = ground arith

-- A name that is seen differs from one that is not.
pub ne_of_has : (a b : String) (ids : List String) → has a ids ≡ false → has b ids ≡ true → a ≢ b
ne_of_has a b ids h k = λ e. ground arith

-- A definition among ordered ones has no seen identifier.
pub Elem-unseen :
    (d : NodeDef) (seen : List String) (ds : List NodeDef)
    → IsOrdered seen ds
    → Elem d ds
    → has d.id seen ≡ false
unfolding has
Elem-unseen d seen [] o m = absurd m
Elem-unseen d seen (e ∷ ds) (new, old, o) (inl same) =
    subst (λ (x : NodeDef). has x.id seen ≡ false) (sym same) new
Elem-unseen d seen (e ∷ ds) (new, old, o) (inr m) =
    ground (arith, Elem-unseen d (e.id ∷ seen) ds o m)

-- In an ordered graph an identifier has one definition.
pub IsOrdered-unique :
    (d e : NodeDef) (seen : List String) (ds : List NodeDef)
    → IsOrdered seen ds
    → Elem d ds
    → Elem e ds
    → d.id ≡ e.id
    → d ≡ e
IsOrdered-unique d e seen [] o m k same = absurd m
IsOrdered-unique d e seen (x ∷ ds) (new, old, o) (inl p) (inl q) same = p ∙ sym q
IsOrdered-unique d e seen (x ∷ ds) (new, old, o) (inl p) (inr k) same = absurd (
    ne_of_has e.id d.id (x.id ∷ seen) (Elem-unseen e (x.id ∷ seen) ds o k)
      (subst (λ (y : NodeDef). has y.id (x.id ∷ seen) ≡ true) (sym p) (has_self x.id seen))
      (sym same))
IsOrdered-unique d e seen (x ∷ ds) (new, old, o) (inr m) (inl q) same = absurd (
    ne_of_has d.id e.id (x.id ∷ seen) (Elem-unseen d (x.id ∷ seen) ds o m)
      (subst (λ (y : NodeDef). has y.id (x.id ∷ seen) ≡ true) (sym q) (has_self x.id seen)) same)
IsOrdered-unique d e seen (x ∷ ds) (new, old, o) (inr m) (inr k) same =
    IsOrdered-unique d e (x.id ∷ seen) ds o m k same
