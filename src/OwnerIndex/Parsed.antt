-- ===== src/OwnerIndex/Parsed.antt =====
-- A reading lists each run once, and accepts what is written as it was.
use opencode_alg.Base.{
  ℕ, suc, String, true, false, Option, none, some, List, [], ◌∷◌, ◌≡◌, ◌≢◌, ◌≤◌, inl, inr, refl,
  sym, ap, subst, arith, eq_iff, Elem, length, has, leb, Option-cases, eq_refl,
}
use opencode_alg.OwnerIndex.{
  Json, null, number, text, array, object, Items, no_items, item, get_field, size, count,
  OwnerRunIndexEntry, OwnerRunIndex, text_of, entry_items, index_json, is_timestamp, accept_entry,
  parse_entry, parse_entries, parse_fields, parse_owner_run_index, listed, max_owner_index_entries,
}
use opencode_alg.OwnerIndex.Kept.{Good, IsKept}

abbrev Unseen : List String → List OwnerRunIndexEntry → Type 0
Unseen seen runs = (r : OwnerRunIndexEntry) → Elem r runs → has r.run_id seen ≡ false

module _ (time : String → Option ℕ) where
  accept_entry-eq-some :
      (seen : List String) (keys : ℕ) (id stamp : Option String) (e : OwnerRunIndexEntry)
      → accept_entry time seen keys id stamp ≡ some e
      → Good time e × (has e.run_id seen ≡ false)
  unfolding accept_entry
  accept_entry-eq-some seen keys none stamp e h = cc
  accept_entry-eq-some seen keys (some id) none e h = cc
  accept_entry-eq-some seen keys (some id) (some stamp) e h = ground arith

  parse_entry-eq-some :
      (seen : List String) (v : Json) (e : OwnerRunIndexEntry)
      → parse_entry time seen v ≡ some e
      → Good time e × (has e.run_id seen ≡ false)
  unfolding parse_entry
  parse_entry-eq-some seen null e h = cc
  parse_entry-eq-some seen (number n) e h = cc
  parse_entry-eq-some seen (text s) e h = cc
  parse_entry-eq-some seen (array items) e h = cc
  parse_entry-eq-some seen (object members) e h =
      accept_entry-eq-some seen (size members) (text_of (get_field "run_id" members))
        (text_of (get_field "updated_at" members)) e h

  unseen_cons :
      (id : String) (seen : List String) (r : String)
      → has r (id ∷ seen) ≡ false
      → (has r seen ≡ false) × (r ≢ id)
  unfolding has
  unseen_cons id seen r h = (ground arith, λ same. ground (arith, eq_iff id r, same))

  pub no_runs : IsKept time []
  no_runs = (tt, λ r m. absurd m)

  -- What the reading accepts.
  parse_entries-eq-some :
      (seen : List String) (items : Items) (runs : List OwnerRunIndexEntry)
      → parse_entries time seen items ≡ some runs
      → IsKept time runs × Unseen seen runs
  unfolding parse_entries
  parse_entries-eq-some seen no_items [] h = ((tt, λ r m. absurd m), λ r m. absurd m)
  parse_entries-eq-some seen no_items (r ∷ rs) h = cc
  parse_entries-eq-some seen (item v items) runs h = elim (Option-cases (parse_entry time seen v)) [
    | inl q ↦ absurd (stuck q)
    | inr (e, q) ↦ elim (Option-cases (parse_entries time (e.run_id ∷ seen) items)) [
      | inl p ↦ absurd (stuck_later e q p)
      | inr (es, p) ↦
          let found : e ∷ es ≡ runs = same e es q p in
          let (good, new) = parse_entry-eq-some seen v e q in
          let ((u, all), later) = parse_entries-eq-some (e.run_id ∷ seen) items es p in
          subst (λ l. IsKept time l × Unseen seen l) found
            (
              (
                (λ r m. (unseen_cons e.run_id seen r.run_id (later r m)).1, u),
                λ r m. elim m [ inl k ↦ subst (Good time) (sym k) good | inr j ↦ all r j ],
              ),
              λ r m. elim m [
                | inl k ↦ subst (λ (o : OwnerRunIndexEntry). has o.run_id seen ≡ false) (sym k) new
                | inr j ↦ (unseen_cons e.run_id seen r.run_id (later r j)).0
              ],
            )
    ]
  ]
    where
      stuck : parse_entry time seen v ≡ none → ⊥
      stuck q = ground (arith, q, h)

      stuck_later :
          (e : OwnerRunIndexEntry)
          → parse_entry time seen v ≡ some e
          → parse_entries time (e.run_id ∷ seen) items ≡ none
          → ⊥
      stuck_later e q p = ground (arith, q, p, h)

      same :
          (e : OwnerRunIndexEntry) (es : List OwnerRunIndexEntry)
          → parse_entry time seen v ≡ some e
          → parse_entries time (e.run_id ∷ seen) items ≡ some es
          → e ∷ es ≡ runs
      same e es q p = ground (arith, q, p, h)

  -- What is written is accepted as it was.
  parse_entries-entry_items :
      (seen : List String) (runs : List OwnerRunIndexEntry)
      → IsKept time runs
      → Unseen seen runs
      → parse_entries time seen (entry_items runs) ≡ some runs
  unfolding parse_entries parse_entry entry_items accept_entry get_field has
  parse_entries-entry_items seen [] k new = refl
  parse_entries-entry_items seen (x ∷ xs) ((f, u), good) new =
      let (named, dated) = good x (inl refl) in
      let fresh = new x (inl refl) in
      let rest =
        parse_entries-entry_items (x.run_id ∷ seen) xs (u, λ r m. good r (inr m))
          (λ r m. unseen r m) in
      rw (named, dated, fresh, rest) refl
    where
      unseen : Unseen (x.run_id ∷ seen) xs
      unseen r m = ground (arith, eq_iff x.run_id r.run_id, f r m, new r (inr m))

  parse_fields-eq-some :
      (expected : String) (keys : ℕ) (version : Json) (owner stamp : Option String) (runs : Json)
      (index : OwnerRunIndex)
      → parse_fields time expected keys version owner stamp runs ≡ some index
      → IsKept time index.runs
  parse_fields-eq-some expected keys version none stamp runs index h = cc
  parse_fields-eq-some expected keys version (some o) none runs index h = cc
  parse_fields-eq-some expected keys version (some o) (some t) null index h = cc
  parse_fields-eq-some expected keys version (some o) (some t) (number n) index h = cc
  parse_fields-eq-some expected keys version (some o) (some t) (text s) index h = cc
  parse_fields-eq-some expected keys version (some o) (some t) (object members) index h = cc
  parse_fields-eq-some expected keys version (some o) (some t) (array items) index h =
      elim (Option-cases (parse_entries time [] items)) [
        | inl q ↦ absurd (stuck q)
        | inr (es, q) ↦ subst (IsKept time) (same es q) (parse_entries-eq-some [] items es q).0
      ]
    where
      stuck : parse_entries time [] items ≡ none → ⊥
      stuck q = ground (arith, q, h)

      same :
          (es : List OwnerRunIndexEntry) → parse_entries time [] items ≡ some es → es ≡ index.runs
      same es q = ground (arith, q, h)

  parse-IsKept :
      (v : Json) (owner : String) (index : OwnerRunIndex)
      → parse_owner_run_index time v owner ≡ some index
      → IsKept time index.runs
  unfolding parse_owner_run_index
  parse-IsKept null owner index h = cc
  parse-IsKept (number n) owner index h = cc
  parse-IsKept (text s) owner index h = cc
  parse-IsKept (array items) owner index h = cc
  parse-IsKept (object members) owner index h =
      parse_fields-eq-some owner (size members) (get_field "schema_version" members)
        (text_of (get_field "owner_session_id" members)) (text_of (get_field "updated_at" members))
        (get_field "runs" members) index h

  pub parse-listed :
      (v : Json) (owner : String) → IsKept time (listed (parse_owner_run_index time v owner))
  parse-listed v owner = elim (Option-cases (parse_owner_run_index time v owner)) [
    | inl q ↦ subst (λ o. IsKept time (listed o)) (sym q) no_runs
    | inr (index, q) ↦ subst (λ o. IsKept time (listed o)) (sym q) (parse-IsKept v owner index q)
  ]

  count-entry_items : (xs : List OwnerRunIndexEntry) → count (entry_items xs) ≡ length xs
  unfolding entry_items
  count-entry_items [] = refl
  count-entry_items (x ∷ xs) = ap suc (count-entry_items xs)

  pub parse-index_json :
      (index : OwnerRunIndex)
      → is_timestamp time index.updated_at ≡ true
      → IsKept time index.runs
      → length index.runs ≤ max_owner_index_entries
      → parse_owner_run_index time (index_json index) index.owner_session_id ≡ some index
  unfolding parse_owner_run_index index_json get_field has
  parse-index_json index dated kept few =
      let short : leb (count (entry_items index.runs)) max_owner_index_entries ≡ true =
        ground (arith, count-entry_items index.runs, few) in
      let own = eq_refl index.owner_session_id in
      let rest = parse_entries-entry_items [] index.runs kept (λ r m. none_seen r.run_id) in
      rw (dated, own, short, rest) refl
    where
      none_seen : (id : String) → has id [] ≡ false
      none_seen id = refl
