-- ===== src/Dart/Postgres/Columns.antt =====
-- The statements of `PostgresStore` with their columns, and how it is made
-- (modules/dart-crawler/src/disclosure_store.cpp). A column is a text or NULL; what a statement does to the
-- database, and whether it throws, is an argument.
use lemuel_quant_core.Base.{ℕ, ◌≡◌, refl, Option, none, some, ◌>>=◌, List, [], map}
use mathlib.Core.Option
use lemuel_quant_core.Base.Bytes.{Bytes}
use lemuel_quant_core.Base.Int.{ℤ}
use lemuel_quant_core.Dart.{Disclosure}
use lemuel_quant_core.Dart.Postgres.{Database}

-- A row of nine columns.
pub record Columns : Type 0 where
  pub c0 : Option Bytes
  pub c1 : Option Bytes
  pub c2 : Option Bytes
  pub c3 : Option Bytes
  pub c4 : Option Bytes
  pub c5 : Option Bytes
  pub c6 : Option Bytes
  pub c7 : Option Bytes
  pub c8 : Option Bytes

-- `as<std::string>("")`
abbrev text_or_empty : Option Bytes → Bytes
text_or_empty none = []
text_or_empty (some s) = s

unfoldable row_to_disclosure : Columns → Disclosure
row_to_disclosure r = record {
  rcept_no = text_or_empty r.c0;
  corp_code = text_or_empty r.c1;
  corp_name = text_or_empty r.c2;
  stock_code = text_or_empty r.c3;
  corp_cls = text_or_empty r.c4;
  report_nm = text_or_empty r.c5;
  flr_nm = text_or_empty r.c6;
  rcept_dt = text_or_empty r.c7;
  rm = text_or_empty r.c8;
}

-- The parameters of the insert, in the order of its columns.
unfoldable columns_of : Disclosure → Columns
columns_of d = record {
  c0 = some d.rcept_no;
  c1 = some d.corp_code;
  c2 = some d.corp_name;
  c3 = some d.stock_code;
  c4 = some d.corp_cls;
  c5 = some d.report_nm;
  c6 = some d.flr_nm;
  c7 = some d.rcept_dt;
  c8 = some d.rm;
}

-- The statements, by what they do; `none` is an exception.
pub record Statements {ℓ} (S : Type ℓ) : Type ℓ where
  pub create_table : S → Option S
  pub create_index : S → Option S
  pub insert_columns : Columns → S → Option (ℕ × S)
  pub select_columns : Bytes → S → Option (List Columns)
  pub select_last : ℤ → S → Option (List Columns)

module _ {ℓ} {S : Type ℓ} (sql : Statements S) where
  -- The disclosures that the methods hand over and get.
  unfoldable pub database : Database S
  unfolding columns_of row_to_disclosure
  database = record {
    insert_row = λ d s. sql.insert_columns (columns_of d) s;
    select_by = λ k s. Option.map (map row_to_disclosure) (sql.select_columns k s);
    select_recent = λ n s. Option.map (map row_to_disclosure) (sql.select_last n s);
  }

  unfoldable ensure_schema : S → Option S
  ensure_schema s = do s1 ← sql.create_table s; sql.create_index s1

  -- Without libpqxx there is no store, which is `connect` giving none.
  unfoldable pub make_postgres : (Bytes → Option S) → Bytes → Option S
  unfolding ensure_schema
  make_postgres connect dsn = connect dsn >>= ensure_schema

-- Each column is read back into the field that it was written from.
row_to_disclosure-columns_of : (d : Disclosure) → row_to_disclosure (columns_of d) ≡ d
unfolding row_to_disclosure columns_of
row_to_disclosure-columns_of d = refl
