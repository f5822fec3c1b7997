-- ===== src/Tests/Crawling.antt =====
-- The disclosure crawler on two pages that share a disclosure.
use lemuel_quant_core.Base.{
  ◌≤◌, ◌≡◌, refl, false, ap, subst, Option, List, [], ◌∷◌, length, none, some, Option-cases, inl,
  inr, arith,
}
use lemuel_quant_core.Base.Bytes.{Bytes, lit, bytes_eq, bytes_eq_refl}
use lemuel_quant_core.Dart.{Disclosure}
use lemuel_quant_core.Dart.Main.{Settings, main}
use lemuel_quant_core.Dart.Main.Printed.{main-crawl}
use lemuel_quant_core.Dart.Store.{blank, empty, find, lookup}
use lemuel_quant_core.Dart.Postgres.{Database}
use lemuel_quant_core.Dart.Postgres.Mirror.{to_rows, Mirrors}
use lemuel_quant_core.Dart.Store.History.{Tracks}
use lemuel_quant_core.Dart.Poll.{start, poll_loop, crawl}
use lemuel_quant_core.Dart.Poll.Window.{report_all, listed, poll_loop-eq-report}
use lemuel_quant_core.Dart.Poll.Crawl.{note_all, crawl_lem}

abbrev first_notice : Disclosure
first_notice = record blank { rcept_no = lit "20240102000001"; corp_name = lit "A" }

abbrev second_notice : Disclosure
second_notice = record blank { rcept_no = lit "20240102000002"; corp_name = lit "B" }

abbrev pages : List (List Disclosure)
pages = (first_notice ∷ []) ∷ (second_notice ∷ first_notice ∷ []) ∷ []

crawl_lem_example :
    ((crawl pages).1 ≡ note_all [] (listed pages))
    × Tracks (crawl pages).0 (note_all [] (listed pages))
crawl_lem_example = crawl_lem pages

poll_loop-eq-report_example :
    ((poll_loop 1 start pages).1 ≡ report_all 1 [] (listed pages))
    × (length (poll_loop 1 start pages).0.order ≤ 1)
poll_loop-eq-report_example = poll_loop-eq-report 1 pages

-- A table without any failure.
abbrev table_db : Database (List (Bytes × Disclosure))
table_db = record {
  insert_row = λ d s. elim (lookup d.rcept_no s) [
    | none ↦ some (1, (d.rcept_no, d) ∷ s)
    | some r ↦ some (0, s)
  ];
  select_by = λ k s. some (to_rows (lookup k s));
  select_recent = λ limit s. some [];
}

table_adds :
    (d : Disclosure) (s : List (Bytes × Disclosure))
    → table_db.select_by d.rcept_no s ≡ some []
    → (s1 : List (Bytes × Disclosure)) × (table_db.insert_row d s ≡ some (1, s1))
      × (table_db.select_by d.rcept_no s1 ≡ some (d ∷ []))
      × ((k : Bytes)
          → bytes_eq d.rcept_no k ≡ false
          → table_db.select_by k s1 ≡ table_db.select_by k s)
table_adds d s h = elim (Option-cases (lookup d.rcept_no s)) [
  | inl n ↦ (
    (d.rcept_no, d) ∷ s,
    rw (n, table_db) refl,
    ground (arith, bytes_eq_refl d.rcept_no),
    λ k f. rw f refl,
  )
  | inr (r, e) ↦ absurd (ground (arith, e))
]

table_conflicts :
    (d r : Disclosure) (s : List (Bytes × Disclosure))
    → table_db.select_by d.rcept_no s ≡ some (r ∷ [])
    → (s1 : List (Bytes × Disclosure)) × (table_db.insert_row d s ≡ some (0, s1))
      × ((k : Bytes) → table_db.select_by k s1 ≡ table_db.select_by k s)
table_conflicts d r s h = elim (Option-cases (lookup d.rcept_no s)) [
  | inl n ↦ absurd (ground (arith, n))
  | inr (q, e) ↦ (s, rw (e, table_db) refl, λ k. refl)
]

table_empty : Mirrors table_db table_adds table_conflicts [] empty
unfolding find
table_empty k = refl

-- A key, and an empty database at every address.
abbrev settings : Settings
settings = record { key = some (lit "key"); dsn = some (lit "postgres://db") }

abbrev table_of : Option (List (Bytes × Disclosure)) → List (Bytes × Disclosure)
table_of none = []
table_of (some s) = s

main-crawl_example : main table_db (λ dsn. some []) settings pages ≡ (0, (crawl pages).1)
main-crawl_example =
    main-crawl table_db table_adds table_conflicts (λ dsn. some [])
      (λ dsn s e.
        subst (λ t. Mirrors table_db table_adds table_conflicts t empty) (ap table_of e)
          table_empty)
      settings pages
