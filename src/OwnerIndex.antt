-- ===== src/OwnerIndex.antt =====
-- src/owner-index.ts and, of src/store.ts, `readOwnerRunIndex` and `updateOwnerRunIndex`: the file
-- that lists the runs of one session. Left out: the lease around an update, and the memo of the
-- last write, which only saves a later write.
pub mod Kept
pub mod Parsed
pub mod Reread
use opencode_alg.Base.{
  ℕ, String, Bool, true, false, ◌&&◌, ◌||◌, not, Option, none, some, List, [], ◌∷◌, map, ltb, suc,
  leb, nat_eq, ◌==◌, if◌then◌else◌, length, take, any, has, codes, codes_eq, to_lower, filter,
}
use opencode_alg.Paths.SafeId.{matches_safe_id}

infixl 5 ◌>>=◌
abbrev pub ◌>>=◌ : {A B : Type 0} → Option A → (A → Option B) → Option B
none >>= f = none
some a >>= f = f a

-- What `JSON.parse` gives; an object's keys differ.
mutual
  pub data Json : Type 0 where
    null : Json
    number : ℕ → Json
    text : String → Json
    array : Items → Json
    object : Fields → Json

  pub data Items : Type 0 where
    no_items : Items
    item : Json → Items → Items

  pub data Fields : Type 0 where
    no_fields : Fields
    field : String → Json → Fields → Fields

unfoldable pub get_field : String → Fields → Json
get_field k no_fields = null
get_field k (field j v members) = let rest = get_field k members in if j == k then v else rest

abbrev pub size : Fields → ℕ
size no_fields = 0
size (field j v members) = suc (size members)

abbrev pub count : Items → ℕ
count no_items = 0
count (item v items) = suc (count items)

pub record OwnerRunIndexEntry : Type 0 where
  pub run_id : String
  pub updated_at : String

pub record OwnerRunIndex : Type 0 where
  pub owner_session_id : String
  pub updated_at : String
  pub runs : List OwnerRunIndexEntry

abbrev pub max_owner_index_entries : ℕ
max_owner_index_entries = 64

abbrev pub max_owner_index_bytes : ℕ
max_owner_index_bytes = 32_768

abbrev pub reserved_run_ids : List String
reserved_run_ids = "." ∷ ".." ∷ "__proto__" ∷ "constructor" ∷ "prototype" ∷ []

unfoldable pub is_run_id : String → Bool
unfolding codes_eq
is_run_id value =
    matches_safe_id (codes value)
    && not (any (λ r. codes_eq (map to_lower (codes value)) (codes r)) reserved_run_ids)

abbrev pub text_of : Json → Option String
text_of (text s) = some s
text_of _ = none

-- `existing?.runs ?? []`
abbrev pub listed : Option OwnerRunIndex → List OwnerRunIndexEntry
listed none = []
listed (some index) = index.runs

-- `[...byRun.set(…).values()]`: a run that is listed keeps its place.
unfoldable pub put : OwnerRunIndexEntry → List OwnerRunIndexEntry → List OwnerRunIndexEntry
put e [] = e ∷ []
put e (x ∷ xs) = let rest = x ∷ put e xs in if x.run_id == e.run_id then e ∷ xs else rest

unfoldable pub put_entry :
    Option OwnerRunIndexEntry → List OwnerRunIndexEntry → List OwnerRunIndexEntry
unfolding put
put_entry none runs = runs
put_entry (some e) runs = put e runs

-- An empty identifier removes nothing.
unfoldable pub drop_entry : Option String → List OwnerRunIndexEntry → List OwnerRunIndexEntry
drop_entry none runs = runs
drop_entry (some id) runs =
    if id == "" then runs else filter (λ (r : OwnerRunIndexEntry). not (r.run_id == id)) runs

unfoldable pub entry_items : List OwnerRunIndexEntry → Items
entry_items [] = no_items
entry_items (e ∷ es) =
    item
      (object (field "run_id" (text e.run_id) (field "updated_at" (text e.updated_at) no_fields)))
      (entry_items es)

-- The object that is written.
unfoldable pub index_json : OwnerRunIndex → Json
unfolding entry_items
index_json index = object (
    field "schema_version" (number 1) (
      field "owner_session_id" (text index.owner_session_id) (
        field "updated_at" (text index.updated_at)
          (field "runs" (array (entry_items index.runs)) no_fields))))

abbrev pub is_one : Json → Bool
is_one (number n) = nat_eq n 1
is_one _ = false

pub data Update : Type 0 where
  untouched too_large : Update
  written : String → Update

-- `Date.parse`, where it is finite, is a parameter; its times are natural numbers.
module _ (time : String → Option ℕ) where
  unfoldable pub is_timestamp : String → Bool
  is_timestamp value = elim (time value) [ none ↦ false | some t ↦ true ]

  -- One entry. The source compares the sorted keys; since it reads both, their number decides.
  unfoldable pub accept_entry :
      (seen : List String) → (keys : ℕ) → (id stamp : Option String) → Option OwnerRunIndexEntry
  unfolding is_timestamp has
  accept_entry seen keys (some id) (some stamp) =
      if nat_eq keys 2 && is_run_id id && is_timestamp stamp && not (has id seen)
      then some (record { run_id = id; updated_at = stamp })
      else none
  accept_entry seen keys _ _ = none

  unfoldable pub parse_entry : (seen : List String) → Json → Option OwnerRunIndexEntry
  unfolding accept_entry get_field
  parse_entry seen (object members) =
      accept_entry seen (size members) (text_of (get_field "run_id" members))
        (text_of (get_field "updated_at" members))
  parse_entry seen _ = none

  unfoldable pub parse_entries : (seen : List String) → Items → Option (List OwnerRunIndexEntry)
  unfolding parse_entry
  parse_entries seen no_items = some []
  parse_entries seen (item v items) = do
    e ← parse_entry seen v
    es ← parse_entries (e.run_id ∷ seen) items
    some (e ∷ es)

  abbrev pub parse_fields :
      (expected : String)
      → (keys : ℕ) → (version : Json) → (owner stamp : Option String) → (runs : Json)
      → Option OwnerRunIndex
  parse_fields expected keys version (some owner) (some stamp) (array items) =
      if is_one version
        && owner == expected
        && is_timestamp stamp
        && leb (count items) max_owner_index_entries
        && nat_eq keys 4
      then (do
        es ← parse_entries [] items
        some (record { owner_session_id = expected; updated_at = stamp; runs = es }))
      else none
  parse_fields expected keys version _ _ _ = none

  unfoldable pub parse_owner_run_index : Json → (expected : String) → Option OwnerRunIndex
  unfolding get_field is_timestamp parse_entries
  parse_owner_run_index (object members) expected =
      parse_fields expected (size members) (get_field "schema_version" members)
        (text_of (get_field "owner_session_id" members)) (text_of (get_field "updated_at" members))
        (get_field "runs" members)
  parse_owner_run_index _ expected = none

-- The byte length, and `JSON.parse` where it does not throw, are parameters.
module _ (time : String → Option ℕ) (bytes : String → ℕ) (read : String → Option Json) where
  -- A file that is absent, too large or malformed is no index.
  unfoldable pub read_owner_run_index :
      (file : Option String) → (owner : String) → Option OwnerRunIndex
  unfolding parse_owner_run_index
  read_owner_run_index none owner = none
  read_owner_run_index (some content) owner =
      if ltb max_owner_index_bytes (bytes content)
      then none
      else elim (read content) [ none ↦ none | some v ↦ parse_owner_run_index time v owner ]

-- The order of `localeCompare`, not after, is a parameter.
module _ (time : String → Option ℕ) (locale_le : String → String → Bool) where
  -- Where a date is not finite, the difference is not a number, and the ids decide.
  unfoldable pub goes_before : (a b : OwnerRunIndexEntry) → Bool
  goes_before a b = elim (time a.updated_at) [
    | none ↦ locale_le a.run_id b.run_id
    | some t ↦ elim (time b.updated_at) [
      | none ↦ locale_le a.run_id b.run_id
      | some u ↦ ltb u t || nat_eq u t && locale_le a.run_id b.run_id
    ]
  ]

  unfoldable pub insert : OwnerRunIndexEntry → List OwnerRunIndexEntry → List OwnerRunIndexEntry
  unfolding goes_before
  insert m [] = m ∷ []
  insert m (x ∷ xs) = let rest = x ∷ insert m xs in if goes_before m x then m ∷ x ∷ xs else rest

  unfoldable pub sort_owner_run_entries : List OwnerRunIndexEntry → List OwnerRunIndexEntry
  unfolding insert
  sort_owner_run_entries [] = []
  sort_owner_run_entries (m ∷ ms) = insert m (sort_owner_run_entries ms)

  unfoldable pub updated_index :
      (owner now : String)
      → Option OwnerRunIndex
      → Option OwnerRunIndexEntry
      → Option String
      → OwnerRunIndex
  unfolding put_entry drop_entry sort_owner_run_entries
  updated_index owner now existing entry remove = record {
    owner_session_id = owner;
    updated_at = now;
    runs =
        take max_owner_index_entries
          (sort_owner_run_entries (drop_entry remove (put_entry entry (listed existing))));
  }

-- `JSON.stringify` with the line break is a parameter too.
module _ (time : String → Option ℕ) (bytes : String → ℕ) (read : String → Option Json)
    (print : Json → String) (locale_le : String → String → Bool) where
  abbrev pub write_index : OwnerRunIndex → Update
  write_index index =
      let content = print (index_json index) in
      if ltb max_owner_index_bytes (bytes content) then too_large else written content

  abbrev pub update_from :
      (owner now : String)
      → Option OwnerRunIndex
      → Option OwnerRunIndexEntry
      → Option String
      → Update
  update_from owner now none none remove = untouched
  update_from owner now existing entry remove =
      write_index (updated_index time locale_le owner now existing entry remove)

  unfoldable pub update_owner_run_index :
      (file : Option String)
      → (owner now : String) → Option OwnerRunIndexEntry
      → (remove : Option String) → Update
  unfolding read_owner_run_index updated_index index_json
  update_owner_run_index file owner now entry remove =
      update_from owner now (read_owner_run_index time bytes read file owner) entry remove
