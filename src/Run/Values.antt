-- ===== src/Run/Values.antt =====
-- The `unknown` values of node outputs. Numbers are modelled by naturals.
use opencode_alg.Base.{ℕ, String, Bool, Option, none, some, List, [], ◌∷◌, ◌==◌, if◌then◌else◌}

mutual
  pub data Json : Type 0 where
    null : Json
    bool : Bool → Json
    num : ℕ → Json
    str : String → Json
    arr : Items → Json
    obj : Fields → Json

  pub data Items : Type 0 where
    nil : Items
    cons : Json → Items → Items

  pub data Fields : Type 0 where
    end : Fields
    field : String → Json → Fields → Fields

-- `Object.hasOwn(value, key) ? value[key] : undefined`
unfoldable pub get_field : String → Fields → Option Json
get_field k end = none
get_field k (field j v fs) = if j == k then some v else get_field k fs

-- `(value as { key?: unknown } | undefined)?.[key]`; a value that is no object has no such field.
unfoldable pub member : String → Json → Option Json
member k (obj fs) = get_field k fs
member k _ = none

-- The texts of an array.
unfoldable pub texts : Items → List String
texts nil = []
texts (cons (str s) xs) = s ∷ texts xs
texts (cons _ xs) = texts xs
