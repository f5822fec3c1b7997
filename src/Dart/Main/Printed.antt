-- ===== src/Dart/Main/Printed.antt =====
-- What the disclosure crawler prints, whichever store it uses (modules/dart-crawler/src/main.cpp).
use lemuel_quant_core.Base.{
  ◌≡◌, refl, ap, false, Option, Option-cases, inl, inr, none, some, List, [], ◌∷◌, if◌then◌else◌,
  Bool-cases,
}
use lemuel_quant_core.Base.Bytes.{Bytes, bytes_eq, is_empty}
use lemuel_quant_core.Dart.{Disclosure}
use lemuel_quant_core.Dart.Store.{empty}
use lemuel_quant_core.Dart.Poll.{crawl, poll_loop, max_seen, start, on_new_all}
use lemuel_quant_core.Dart.Postgres.{Database, choose_store}
use lemuel_quant_core.Dart.Postgres.Mirror.{Mirrors, pg_on_new_all-Mirrors}
use lemuel_quant_core.Dart.Main.{Settings, has_key, printed_by, main}

module _ {ℓ} {S : Type ℓ} (db : Database S)
    (adds : (d : Disclosure) (s : S)
      → db.select_by d.rcept_no s ≡ some []
      → (s1 : S) × (db.insert_row d s ≡ some (1, s1))
        × (db.select_by d.rcept_no s1 ≡ some (d ∷ []))
        × ((k : Bytes) → bytes_eq d.rcept_no k ≡ false → db.select_by k s1 ≡ db.select_by k s))
    (conflicts : (d r : Disclosure) (s : S)
      → db.select_by d.rcept_no s ≡ some (r ∷ [])
      → (s1 : S) × (db.insert_row d s ≡ some (0, s1))
        × ((k : Bytes) → db.select_by k s1 ≡ db.select_by k s))
    (connect : Bytes → Option S)
    (is_new : (dsn : Bytes) (s : S)
      → connect dsn ≡ some s
      → Mirrors db adds conflicts s empty) where
  printed_by-choose_store :
      (dsn : Option Bytes) (ds : List Disclosure)
      → printed_by db connect (choose_store connect dsn) ds ≡ (on_new_all empty ds).1
  unfolding choose_store printed_by
  printed_by-choose_store none ds = refl
  printed_by-choose_store (some dsn) ds = elim (Bool-cases (is_empty dsn)) [
    | inl t ↦ rw (t, choose_store) refl
    | inr f ↦ elim (Option-cases (connect dsn)) [
      | inl n ↦ rw (f, n, choose_store) refl
      | inr (s, e) ↦
          rw (f, e, choose_store)
            (pg_on_new_all-Mirrors db adds conflicts s empty ds (is_new dsn s e)).0
    ]
  ]

  -- Without a key the program ends with code 2. With one, and a database that keeps one row for each number
  -- and has none at first, it prints the same disclosures whether there is a database or not and whether it
  -- answers the connection or not: those that the crawler prints over the store in memory.
  pub main-crawl :
      (env : Settings) (pages : List (List Disclosure))
      → main db connect env pages ≡ (if has_key env.key then (0, (crawl pages).1) else (2, []))
  unfolding main crawl
  main-crawl env pages =
      ap (λ l. if has_key env.key then (0, l) else (2, []))
        (printed_by-choose_store env.dsn (poll_loop max_seen start pages).1)
