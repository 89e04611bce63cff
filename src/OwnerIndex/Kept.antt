-- ===== src/OwnerIndex/Kept.antt =====
-- What every listing of runs keeps: each run once, under a run's name and with a date.
use opencode_alg.Base.{
  ℕ, zero, suc, String, Bool, true, Option, none, some, List, [], ◌∷◌, ◌≡◌, ◌≢◌, ◌⊎◌, inl, inr,
  refl, sym, ◌∙◌, ap, subst, arith, eq_iff, ◌==◌, not, if_ind, filter, take, Elem, Elem-filter,
}
use opencode_alg.OwnerIndex.{
  OwnerRunIndexEntry, is_run_id, is_timestamp, put, put_entry, drop_entry, goes_before, insert,
  sort_owner_run_entries,
}

-- No entry has the name.
abbrev pub Fresh : String → List OwnerRunIndexEntry → Type 0
Fresh id runs = (r : OwnerRunIndexEntry) → Elem r runs → r.run_id ≢ id

abbrev pub Unique : List OwnerRunIndexEntry → Type 0
Unique [] = Unit
Unique (x ∷ xs) = Fresh x.run_id xs × Unique xs

abbrev pub Good : (String → Option ℕ) → OwnerRunIndexEntry → Type 0
Good time e = (is_run_id e.run_id ≡ true) × (is_timestamp time e.updated_at ≡ true)

abbrev pub IsKept : (String → Option ℕ) → List OwnerRunIndexEntry → Type 0
IsKept time runs = Unique runs × ((r : OwnerRunIndexEntry) → Elem r runs → Good time r)

Elem-take :
    (n : ℕ) (xs : List OwnerRunIndexEntry) (r : OwnerRunIndexEntry) → Elem r (take n xs) → Elem r xs
Elem-take zero xs r m = absurd m
Elem-take (suc n) [] r m = m
Elem-take (suc n) (x ∷ xs) r (inl e) = inl e
Elem-take (suc n) (x ∷ xs) r (inr m) = inr (Elem-take n xs r m)

Unique-take : (n : ℕ) (xs : List OwnerRunIndexEntry) → Unique xs → Unique (take n xs)
Unique-take zero xs u = tt
Unique-take (suc n) [] u = tt
Unique-take (suc n) (x ∷ xs) (f, u) = (λ r m. f r (Elem-take n xs r m), Unique-take n xs u)

Unique-filter :
    (p : OwnerRunIndexEntry → Bool) (xs : List OwnerRunIndexEntry)
    → Unique xs
    → Unique (filter p xs)
Unique-filter p [] u = tt
Unique-filter p (x ∷ xs) (f, u) =
    if_ind Unique (p x) (λ _. (λ r m. f r ((Elem-filter p r xs).0 m).0, Unique-filter p xs u))
      (λ _. Unique-filter p xs u)

Elem-put :
    (e : OwnerRunIndexEntry) (xs : List OwnerRunIndexEntry) (r : OwnerRunIndexEntry)
    → Elem r (put e xs)
    → (r ≡ e) ⊎ Elem r xs
unfolding put
Elem-put e [] r m = m
Elem-put e (x ∷ xs) r m =
    if_ind (λ l. Elem r l → (r ≡ e) ⊎ Elem r (x ∷ xs)) (x.run_id == e.run_id)
      (λ _ m. elim m [ inl q ↦ inl q | inr k ↦ inr (inr k) ])
      (λ _ m. elim m [
        | inl q ↦ inr (inl q)
        | inr k ↦ elim (Elem-put e xs r k) [ inl q ↦ inl q | inr j ↦ inr (inr j) ]
      ])
      m

Unique-put : (e : OwnerRunIndexEntry) (xs : List OwnerRunIndexEntry) → Unique xs → Unique (put e xs)
unfolding put
Unique-put e [] u = (λ r m. absurd m, tt)
Unique-put e (x ∷ xs) (f, u) =
    if_ind Unique (x.run_id == e.run_id)
      (λ h. (λ r m. subst (λ id. r.run_id ≢ id) ((eq_iff x.run_id e.run_id).0 h) (f r m), u))
      (λ h. (
        λ r m. elim (Elem-put e xs r m) [
          | inl q ↦ λ same.
              ground
                (arith, eq_iff x.run_id e.run_id, same, ap (λ (o : OwnerRunIndexEntry). o.run_id) q)
          | inr k ↦ f r k
        ],
        Unique-put e xs u,
      ))

module _ (time : String → Option ℕ) (locale_le : String → String → Bool) where
  Elem-insert :
      (e : OwnerRunIndexEntry) (xs : List OwnerRunIndexEntry) (r : OwnerRunIndexEntry)
      → Elem r (insert time locale_le e xs)
      → (r ≡ e) ⊎ Elem r xs
  unfolding insert
  Elem-insert e [] r m = m
  Elem-insert e (x ∷ xs) r m =
      if_ind (λ l. Elem r l → (r ≡ e) ⊎ Elem r (x ∷ xs)) (goes_before time locale_le e x) (λ _ m. m)
        (λ _ m. elim m [
          | inl q ↦ inr (inl q)
          | inr k ↦ elim (Elem-insert e xs r k) [ inl q ↦ inl q | inr j ↦ inr (inr j) ]
        ])
        m

  Unique-insert :
      (e : OwnerRunIndexEntry) (xs : List OwnerRunIndexEntry)
      → Fresh e.run_id xs
      → Unique xs
      → Unique (insert time locale_le e xs)
  unfolding insert
  Unique-insert e [] new u = (λ r m. absurd m, tt)
  Unique-insert e (x ∷ xs) new (f, u) =
      if_ind Unique (goes_before time locale_le e x) (λ _. (new, (f, u)))
        (λ _. (
          λ r m. elim (Elem-insert e xs r m) [
            | inl q ↦
                λ same. new x (inl refl) (sym same ∙ ap (λ (o : OwnerRunIndexEntry). o.run_id) q)
            | inr k ↦ f r k
          ],
          Unique-insert e xs (λ r m. new r (inr m)) u,
        ))

  Elem-sort :
      (xs : List OwnerRunIndexEntry) (r : OwnerRunIndexEntry)
      → Elem r (sort_owner_run_entries time locale_le xs)
      → Elem r xs
  unfolding sort_owner_run_entries
  Elem-sort [] r m = m
  Elem-sort (x ∷ xs) r m = elim (Elem-insert x (sort_owner_run_entries time locale_le xs) r m) [
    | inl q ↦ inl q
    | inr k ↦ inr (Elem-sort xs r k)
  ]

  Unique-sort :
      (xs : List OwnerRunIndexEntry) → Unique xs → Unique (sort_owner_run_entries time locale_le xs)
  unfolding sort_owner_run_entries
  Unique-sort [] u = tt
  Unique-sort (x ∷ xs) (f, u) =
      Unique-insert x (sort_owner_run_entries time locale_le xs) (λ r m. f r (Elem-sort xs r m))
        (Unique-sort xs u)

  -- The sorted and cut listing is one that is kept.
  pub IsKept-sort :
      (n : ℕ) (xs : List OwnerRunIndexEntry)
      → IsKept time xs
      → IsKept time (take n (sort_owner_run_entries time locale_le xs))
  IsKept-sort n xs (u, good) = (
    Unique-take n (sort_owner_run_entries time locale_le xs) (Unique-sort xs u),
    λ r m. good r (Elem-sort xs r (Elem-take n (sort_owner_run_entries time locale_le xs) r m)),
  )

pub IsKept-put :
    (time : String → Option ℕ) (entry : Option OwnerRunIndexEntry) (xs : List OwnerRunIndexEntry)
    → ((e : OwnerRunIndexEntry) → entry ≡ some e → Good time e)
    → IsKept time xs
    → IsKept time (put_entry entry xs)
unfolding put_entry
IsKept-put time none xs h k = k
IsKept-put time (some e) xs h (u, good) = (
  Unique-put e xs u,
  λ r m. elim (Elem-put e xs r m) [
    | inl q ↦ subst (Good time) (sym q) (h e refl)
    | inr k ↦ good r k
  ],
)

pub IsKept-drop :
    (time : String → Option ℕ) (remove : Option String) (xs : List OwnerRunIndexEntry)
    → IsKept time xs
    → IsKept time (drop_entry remove xs)
unfolding drop_entry
IsKept-drop time none xs k = k
IsKept-drop time (some id) xs (u, good) =
    let p = λ (r : OwnerRunIndexEntry). not (r.run_id == id) in
    if_ind (IsKept time) (id == "") (λ _. (u, good))
      (λ _. (Unique-filter p xs u, λ r m. good r ((Elem-filter p r xs).0 m).0))
