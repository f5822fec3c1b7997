-- ===== src/Dart/Main.antt =====
-- The main program of the disclosure crawler (modules/dart-crawler/src/main.cpp). The environment, the
-- connection to a database and the pages of each round are arguments.
pub mod Printed
use lemuel_quant_core.Base.{ℕ, Bool, false, not, Option, none, some, List, [], if◌then◌else◌}
use lemuel_quant_core.Base.Bytes.{Bytes, is_empty}
use lemuel_quant_core.Dart.{Disclosure}
use lemuel_quant_core.Dart.Store.{empty}
use lemuel_quant_core.Dart.Poll.{poll_loop, max_seen, start, on_new_all}
use lemuel_quant_core.Dart.Postgres.{
  Database, Chosen, postgres, in_memory, choose_store, pg_on_new_all,
}

-- `env.key` and `env.dsn` are `DART_API_KEY` and `LQC_PG_DSN`.
pub record Settings : Type 0 where
  pub key : Option Bytes
  pub dsn : Option Bytes

abbrev pub has_key : Option Bytes → Bool
has_key none = false
has_key (some key) = not (is_empty key)

module _ {ℓ} {S : Type ℓ} (db : Database S) (connect : Bytes → Option S) where
  -- What is printed over the chosen store.
  abbrev pub printed_by : Chosen S → List Disclosure → List Disclosure
  unfolding pg_on_new_all on_new_all
  printed_by (postgres s) ds = (pg_on_new_all db s ds).1
  printed_by in_memory ds = (on_new_all empty ds).1

  -- The exit code, and what is printed as new.
  unfoldable pub main : Settings → List (List Disclosure) → ℕ × List Disclosure
  unfolding choose_store poll_loop printed_by
  main env pages =
      if has_key env.key
      then (0, printed_by (choose_store connect env.dsn) (poll_loop max_seen start pages).1)
      else (2, [])
