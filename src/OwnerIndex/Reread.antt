-- ===== src/OwnerIndex/Reread.antt =====
-- The index that an update writes is the index that a later reading finds.
use opencode_alg.Base.{
  ℕ, zero, suc, String, Bool, true, false, Option, none, some, List, [], ◌∷◌, ◌≡◌, ◌≤◌, inl, inr,
  sym, ap, subst, arith, if_ind, take, length, ltb, Bool-cases, Option-cases,
}
use opencode_alg.OwnerIndex.{
  Json, OwnerRunIndexEntry, OwnerRunIndex, put_entry, drop_entry, index_json, written, is_timestamp,
  parse_owner_run_index, read_owner_run_index, sort_owner_run_entries, listed, updated_index,
  update_owner_run_index, write_index, update_from, max_owner_index_entries, max_owner_index_bytes,
}
use opencode_alg.OwnerIndex.Parsed.{no_runs, parse-listed, parse-index_json}
use opencode_alg.OwnerIndex.Kept.{Good, IsKept, IsKept-sort, IsKept-put, IsKept-drop}

length-take : (n : ℕ) (xs : List OwnerRunIndexEntry) → length (take n xs) ≤ n
length-take zero xs = omega arith
length-take (suc n) [] = omega arith
length-take (suc n) (x ∷ xs) = omega (arith, length-take n xs)

module _ (time : String → Option ℕ) (bytes : String → ℕ) (read : String → Option Json) where
  read_owner_run_index-IsKept :
      (file : Option String) (owner : String)
      → IsKept time (listed (read_owner_run_index time bytes read file owner))
  unfolding read_owner_run_index
  read_owner_run_index-IsKept none owner = no_runs time
  read_owner_run_index-IsKept (some content) owner =
      if_ind (λ o. IsKept time (listed o)) (ltb max_owner_index_bytes (bytes content))
        (λ _. no_runs time)
        (λ _. elim (Option-cases (read content)) [
          | inl q ↦ rw q (no_runs time)
          | inr (v, q) ↦ rw q (parse-listed time v owner)
        ])

module _ (time : String → Option ℕ) (locale_le : String → String → Bool) where
  updated_index-IsKept :
      (owner now : String) (existing : Option OwnerRunIndex) (entry : Option OwnerRunIndexEntry)
      (remove : Option String)
      → IsKept time (listed existing)
      → ((e : OwnerRunIndexEntry) → entry ≡ some e → Good time e)
      → let runs = (updated_index time locale_le owner now existing entry remove).runs in
        IsKept time runs × (length runs ≤ max_owner_index_entries)
  unfolding updated_index
  updated_index-IsKept owner now existing entry remove kept sound =
      let all = drop_entry remove (put_entry entry (listed existing)) in
      (
        IsKept-sort time locale_le max_owner_index_entries all (
            IsKept-drop time remove (put_entry entry (listed existing))
              (IsKept-put time entry (listed existing) sound kept)),
        length-take max_owner_index_entries (sort_owner_run_entries time locale_le all),
      )

  updated_index-fields :
      (owner now : String) (existing : Option OwnerRunIndex) (entry : Option OwnerRunIndexEntry)
      (remove : Option String) (index : OwnerRunIndex)
      → updated_index time locale_le owner now existing entry remove ≡ index
      → (index.owner_session_id ≡ owner) × (index.updated_at ≡ now)
  unfolding updated_index
  updated_index-fields owner now existing entry remove index made = (
    sym (ap (λ (i : OwnerRunIndex). i.owner_session_id) made),
    sym (ap (λ (i : OwnerRunIndex). i.updated_at) made),
  )

module _ (time : String → Option ℕ) (bytes : String → ℕ) (read : String → Option Json) where
  read_written :
      (content owner : String) (v : Json) (index : OwnerRunIndex)
      → read content ≡ some v
      → ltb max_owner_index_bytes (bytes content) ≡ false
      → parse_owner_run_index time v owner ≡ some index
      → read_owner_run_index time bytes read (some content) owner ≡ some index
  unfolding read_owner_run_index
  read_written content owner v index back fits parsed = rw (fits, back) parsed

module _ (time : String → Option ℕ) (bytes : String → ℕ) (read : String → Option Json)
    (print : Json → String) (locale_le : String → String → Bool) where
  write_index-eq-written :
      (index : OwnerRunIndex) (content : String)
      → write_index time bytes read print locale_le index ≡ written content
      → (content ≡ print (index_json index)) × (ltb max_owner_index_bytes (bytes content) ≡ false)
  write_index-eq-written index content h =
      ground (arith, Bool-cases (ltb max_owner_index_bytes (bytes (print (index_json index)))))

  update_from-eq-written :
      (owner now : String) (existing : Option OwnerRunIndex) (entry : Option OwnerRunIndexEntry)
      (remove : Option String) (content : String)
      → update_from time bytes read print locale_le owner now existing entry remove
        ≡ written content
      → write_index time bytes read print locale_le
          (updated_index time locale_le owner now existing entry remove)
        ≡ written content
  update_from-eq-written owner now none none remove content h = cc
  update_from-eq-written owner now none (some e) remove content h = h
  update_from-eq-written owner now (some i) none remove content h = h
  update_from-eq-written owner now (some i) (some e) remove content h = h

  update_owner_run_index-eq-written :
      (file : Option String) (owner now : String) (entry : Option OwnerRunIndexEntry)
      (remove : Option String) (content : String) (index : OwnerRunIndex)
      → updated_index time locale_le owner now
          (read_owner_run_index time bytes read file owner)
          entry
          remove
        ≡ index
      → update_owner_run_index time bytes read print locale_le file owner now entry remove
        ≡ written content
      → (content ≡ print (index_json index)) × (ltb max_owner_index_bytes (bytes content) ≡ false)
  unfolding update_owner_run_index
  update_owner_run_index-eq-written file owner now entry remove content index made wrote =
      write_index-eq-written index content (
        subst (λ i. write_index time bytes read print locale_le i ≡ written content) made
          (update_from-eq-written owner now (read_owner_run_index time bytes read file owner) entry
            remove content wrote))

-- Where the written text reads back as the object that was written, the date of the update is a date
-- and an entry that is put in has a run's name and a date, an update that writes a text leaves a file
-- in which a reading finds exactly the updated index; it lists at most 64 runs, each once, and each
-- with a run's name and a date.
pub update_owner_run_index-read :
    (time : String → Option ℕ) (bytes : String → ℕ) (read : String → Option Json)
    (print : Json → String) (locale_le : String → String → Bool) (file : Option String)
    (owner now : String) (entry : Option OwnerRunIndexEntry) (remove : Option String)
    (content : String) (index : OwnerRunIndex)
    → updated_index time locale_le owner now
        (read_owner_run_index time bytes read file owner)
        entry
        remove
      ≡ index
    → read (print (index_json index)) ≡ some (index_json index)
    → is_timestamp time now ≡ true
    → ((e : OwnerRunIndexEntry) → entry ≡ some e → Good time e)
    → update_owner_run_index time bytes read print locale_le file owner now entry remove
      ≡ written content
    → (read_owner_run_index time bytes read (some content) owner ≡ some index)
      × IsKept time index.runs
      × (length index.runs ≤ max_owner_index_entries)
update_owner_run_index-read time bytes read print locale_le file owner now entry remove content
      index made back dated sound wrote =
    let existing = read_owner_run_index time bytes read file owner in
    let (kept, few) =
      subst (λ (i : OwnerRunIndex). IsKept time i.runs × (length i.runs ≤ max_owner_index_entries))
        made
        (updated_index-IsKept time locale_le owner now existing entry remove
          (read_owner_run_index-IsKept time bytes read file owner) sound) in
    let (text_is, fits) =
      update_owner_run_index-eq-written time bytes read print locale_le file owner now entry remove
        content index made wrote in
    let (mine, stamp) =
      updated_index-fields time locale_le owner now existing entry remove index made in
    let parsed =
      parse-index_json time index (subst (λ t. is_timestamp time t ≡ true) (sym stamp) dated) kept
        few in
    (
      read_written time bytes read content owner (index_json index) index
          (subst (λ c. read c ≡ some (index_json index)) (sym text_is) back) fits
          (subst (λ o. parse_owner_run_index time (index_json index) o ≡ some index) mine parsed),
      kept,
      few,
    )
