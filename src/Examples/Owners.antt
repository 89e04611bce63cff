-- ===== src/Examples/Owners.antt =====
-- Runs of the index file of one session.
use opencode_alg.Base.{
  ℕ, String, Bool, true, Option, none, some, [], ◌∷◌, ◌≡◌, ◌≤◌, refl, subst, length, ◌==◌,
  if◌then◌else◌, leb, codes,
}
use opencode_alg.OwnerIndex.{
  Json, OwnerRunIndexEntry, OwnerRunIndex, is_run_id, is_timestamp, index_json, written,
  read_owner_run_index, updated_index, update_owner_run_index, max_owner_index_entries,
}
use opencode_alg.OwnerIndex.Kept.{Good, IsKept}
use opencode_alg.OwnerIndex.Reread.{update_owner_run_index-read}
use opencode_alg.Paths.SafeId.{matches_safe_id}

abbrev time : String → Option ℕ
time stamp =
    if stamp == "monday"
    then some 1
    else if stamp == "tuesday"
    then some 2
    else if stamp == "friday"
    then some 5
    else none

abbrev locale_le : String → String → Bool
locale_le a b = leb (length (codes a)) (length (codes b))

abbrev run_at : String → String → OwnerRunIndexEntry
run_at id stamp = record { run_id = id; updated_at = stamp }

abbrev before : OwnerRunIndex
before = record {
  owner_session_id = "ses";
  updated_at = "tuesday";
  runs = run_at "r1" "tuesday" ∷ run_at "r2" "monday" ∷ [];
}

abbrev after : OwnerRunIndex
after = record {
  owner_session_id = "ses";
  updated_at = "friday";
  runs = run_at "r2" "friday" ∷ run_at "r1" "tuesday" ∷ [];
}

abbrev read_file : String → Option Json
read_file content = some (index_json (if content == "old" then before else after))

abbrev print_file : Json → String
print_file v = "new"

abbrev bytes : String → ℕ
bytes content = length (codes content)

entry-Good : (e : OwnerRunIndexEntry) → some (run_at "r2" "friday") ≡ some e → Good time e
unfolding is_run_id is_timestamp matches_safe_id
entry-Good e h =
    subst (λ (x : Option OwnerRunIndexEntry). elim x [ none ↦ Unit | some y ↦ Good time y ]) h
      (refl, refl)

updated :
    updated_index time locale_le "ses" "friday"
      (read_owner_run_index time bytes read_file (some "old") "ses")
      (some (run_at "r2" "friday"))
      none
    ≡ after
unfolding updated_index read_owner_run_index matches_safe_id index_json is_run_id
updated = refl

update_wrote :
    update_owner_run_index time bytes read_file print_file locale_le
      (some "old")
      "ses"
      "friday"
      (some (run_at "r2" "friday"))
      none
    ≡ written "new"
unfolding update_owner_run_index matches_safe_id index_json is_run_id
update_wrote = refl

friday : is_timestamp time "friday" ≡ true
unfolding is_timestamp
friday = refl

update_owner_run_index-read_example :
    (read_owner_run_index time bytes read_file (some "new") "ses" ≡ some after)
    × IsKept time after.runs
    × (length after.runs ≤ max_owner_index_entries)
update_owner_run_index-read_example =
    update_owner_run_index-read time bytes read_file print_file locale_le (some "old") "ses"
      "friday" (some (run_at "r2" "friday")) none "new" after updated refl friday entry-Good
      update_wrote
