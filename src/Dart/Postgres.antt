-- ===== src/Dart/Postgres.antt =====
-- `PostgresStore` and `make_postgres` (modules/dart-crawler/src/disclosure_store.cpp), and the choice of
-- the store in modules/dart-crawler/src/main.cpp. The database is an argument: what each of the three
-- statements does to it and answers.
pub mod Mirror
pub mod Columns
use lemuel_quant_core.Base.{
  ℕ, Bool, true, false, ltb, Option, none, some, List, [], ◌∷◌, if◌then◌else◌,
}
use lemuel_quant_core.Base.Bytes.{Bytes, is_empty}
use lemuel_quant_core.Base.Int.{ℤ}
use lemuel_quant_core.Dart.{Disclosure}
use lemuel_quant_core.Dart.Store.{Store, empty, insert}

-- `none` is an exception; a row is the disclosure in it.
pub record Database {ℓ} (S : Type ℓ) : Type ℓ where
  pub insert_row : Disclosure → S → Option (ℕ × S)
  pub select_by : Bytes → S → Option (List Disclosure)
  pub select_recent : ℤ → S → Option (List Disclosure)

-- `r[0]`, if there is a row.
abbrev pub first_row : List Disclosure → Option Disclosure
first_row [] = none
first_row (r ∷ rows) = some r

module _ {ℓ} {S : Type ℓ} (db : Database S) where
  -- `insert`: an insert that throws is rolled back.
  unfoldable pub pg_insert : S → Disclosure → S × Bool
  pg_insert s d = elim (db.insert_row d s) [
    | none ↦ (s, false)
    | some (affected_rows, s1) ↦ (s1, ltb 0 affected_rows)
  ]

  unfoldable pub pg_find : S → Bytes → Option Disclosure
  pg_find s rcept_no = elim (db.select_by rcept_no s) [ none ↦ none | some rows ↦ first_row rows ]

  unfoldable pg_recent : S → ℤ → List Disclosure
  pg_recent s limit = elim (db.select_recent limit s) [ none ↦ [] | some rows ↦ rows ]

  -- The callback of `main` over what the loop hands on.
  unfoldable pub pg_on_new_all : S → List Disclosure → S × List Disclosure
  unfolding pg_insert
  pg_on_new_all s [] = (s, [])
  pg_on_new_all s (d ∷ ds) =
      let (s1, inserted) = pg_insert s d in
      let (s2, printed) = pg_on_new_all s1 ds in (s2, if inserted then d ∷ printed else printed)

-- Which store `main` uses.
pub data Chosen {ℓ} (S : Type ℓ) : Type ℓ where
  postgres : S → Chosen S
  in_memory : Chosen S

-- `make_postgres`: `connect` is the constructor, whose exception gives no store.
unfoldable pub choose_store {ℓ} : {S : Type ℓ} → (Bytes → Option S) → Option Bytes → Chosen S
choose_store connect none = in_memory
choose_store connect (some dsn) =
    if is_empty dsn
    then in_memory
    else elim (connect dsn) [ none ↦ in_memory | some s ↦ postgres s ]
