-- ===== src/Dart/Postgres/Mirror.antt =====
-- The two stores of disclosures against each other (modules/dart-crawler/src/disclosure_store.cpp).
use lemuel_quant_core.Base.{
  ℕ, ◌≡◌, refl, ap, ap₂, subst, ◌∙◌, ◌++◌, Bool, true, false, ltb, Bool-cases, Option-cases, inl,
  inr, Option, none, some, List, [], ◌∷◌, if◌then◌else◌,
}
use lemuel_quant_core.Base.Bytes.{Bytes, bytes_eq, bytes_eq_iff}
use lemuel_quant_core.Dart.{Disclosure}
use lemuel_quant_core.Dart.Store.{Store, insert, find, lookup}
use lemuel_quant_core.Dart.Poll.{on_new_all}
use lemuel_quant_core.Dart.Postgres.{Database, pg_insert, pg_find, pg_on_new_all, first_row}

-- The rows that the primary key allows for a number.
abbrev pub to_rows : Option Disclosure → List Disclosure
to_rows none = []
to_rows (some d) = d ∷ []

module _ {ℓ} {S : Type ℓ} (db : Database S)
    (adds : (d : Disclosure) (s : S)
      → db.select_by d.rcept_no s ≡ some []
      → (s1 : S) × (db.insert_row d s ≡ some (1, s1))
        × (db.select_by d.rcept_no s1 ≡ some (d ∷ []))
        × ((k : Bytes) → bytes_eq d.rcept_no k ≡ false → db.select_by k s1 ≡ db.select_by k s))
    (conflicts : (d r : Disclosure) (s : S)
      → db.select_by d.rcept_no s ≡ some (r ∷ [])
      → (s1 : S) × (db.insert_row d s ≡ some (0, s1))
        × ((k : Bytes) → db.select_by k s1 ≡ db.select_by k s)) where
  -- The database answers for each number what the store in memory has.
  abbrev pub Mirrors : S → Store → Type 0
  Mirrors s store = (k : Bytes) → db.select_by k s ≡ some (to_rows (find store k))

  pg_inserted :
      (s s1 : S) (d : Disclosure) (n : ℕ)
      → db.insert_row d s ≡ some (n, s1)
      → pg_insert db s d ≡ (s1, ltb 0 n)
  unfolding pg_insert
  pg_inserted s s1 d n e = rw (e, pg_insert) refl

  abbrev extended : Store → Disclosure → Store
  extended store d = record {
    by_id = (d.rcept_no, d) ∷ store.by_id;
    order = store.order ++ d.rcept_no ∷ [];
  }

  inserted :
      (store : Store) (d : Disclosure)
      → lookup d.rcept_no store.by_id ≡ none
      → insert store d ≡ (extended store d, true)
  unfolding insert
  inserted store d n = rw (n, insert) refl

  kept :
      (store : Store) (d r : Disclosure)
      → lookup d.rcept_no store.by_id ≡ some r
      → insert store d ≡ (store, false)
  unfolding insert
  kept store d r h = rw (h, insert) refl

  known :
      (s : S) (store : Store) (d : Disclosure) (o : Option Disclosure)
      → Mirrors s store
      → lookup d.rcept_no store.by_id ≡ o
      → db.select_by d.rcept_no s ≡ some (to_rows o)
  unfolding find
  known s store d o m h = m d.rcept_no ∙ ap (λ r. some (to_rows r)) h

  -- The row that is new, and all others.
  after :
      (s s1 : S) (store : Store) (d : Disclosure)
      → Mirrors s store
      → db.select_by d.rcept_no s1 ≡ some (d ∷ [])
      → ((k : Bytes) → bytes_eq d.rcept_no k ≡ false → db.select_by k s1 ≡ db.select_by k s)
      → Mirrors s1 (extended store d)
  unfolding find
  after s s1 store d m here others k = elim (Bool-cases (bytes_eq d.rcept_no k)) [
    | inl t ↦
        let same : d.rcept_no ≡ k = (bytes_eq_iff d.rcept_no k).0 t in
        rw (t, lookup) (subst (λ j. db.select_by j s1 ≡ some (d ∷ [])) same here)
    | inr f ↦ rw (f, lookup) (others k f ∙ m k)
  ]

  insert-Mirrors :
      (s : S) (store : Store) (d : Disclosure)
      → Mirrors s store
      → Mirrors (pg_insert db s d).0 (insert store d).0
        × ((pg_insert db s d).1 ≡ (insert store d).1)
  insert-Mirrors s store d m = elim (Option-cases (lookup d.rcept_no store.by_id)) [
    | inl n ↦
        let (s1, e, here, others) = adds d s (known s store d none m n) in
        rw (pg_inserted s s1 d 1 e, inserted store d n)
          (λ k. after s s1 store d m here others k, refl)
    | inr (r, h) ↦
        let (s1, e, same) = conflicts d r s (known s store d (some r) m h) in
        rw (pg_inserted s s1 d 0 e, kept store d r h) (λ k. same k ∙ m k, refl)
  ]

  first_row-to_rows : (o : Option Disclosure) → first_row (to_rows o) ≡ o
  first_row-to_rows none = refl
  first_row-to_rows (some d) = refl

  pg_find-find :
      (s : S) (store : Store) (k : Bytes) → Mirrors s store → pg_find db s k ≡ find store k
  unfolding pg_find
  pg_find-find s store k m = rw (m k, pg_find) (first_row-to_rows (find store k))

  -- If an insert adds the row of a number that no row has, leaves the table alone on a conflict, and never
  -- fails: over any disclosures, the Postgres store prints the same ones as new as the store in memory,
  -- and then answers every `find` as that one does.
  pub pg_on_new_all-Mirrors :
      (s : S) (store : Store) (ds : List Disclosure)
      → Mirrors s store
      → ((pg_on_new_all db s ds).1 ≡ (on_new_all store ds).1)
        × ((k : Bytes) → pg_find db (pg_on_new_all db s ds).0 k ≡ find (on_new_all store ds).0 k)
  unfolding pg_on_new_all on_new_all
  pg_on_new_all-Mirrors s store [] m = (refl, λ k. pg_find-find s store k m)
  pg_on_new_all-Mirrors s store (d ∷ ds) m =
      let (m1, e) = insert-Mirrors s store d m in
      let (p, f) = pg_on_new_all-Mirrors (pg_insert db s d).0 (insert store d).0 ds m1 in
      (ap₂ (λ (b : Bool) (l : List Disclosure). if b then d ∷ l else l) e p, f)
