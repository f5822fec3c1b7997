-- ===== src/Tests/Writing.antt =====
-- The files of the warehouse on two rows with different keys, and its loop on a few events.
use lemuel_quant_core.Base.{
  Option, All, ℕ, ◌≡◌, ◌⊎◌, refl, Bool, true, false, ◌&&◌, ◌==◌, some, List, [], ◌∷◌, ◌++◌, map,
  arith, suc,
}
use lemuel_quant_core.Base.Bytes.{Bytes, lit, decimal}
use lemuel_quant_core.Base.Find.{is_free, is_free→Free}
use lemuel_quant_core.Base.Split.{split}
use lemuel_quant_core.Dwh.{Row}
use lemuel_quant_core.Dwh.Writer.{tag_keys, value_keys, Arrow, parquet, truncated, csv_text, write}
use lemuel_quant_core.Dwh.Writer.Keys.{IsKeySet, any_tag, any_value}
use lemuel_quant_core.Dwh.Writer.Csv.{Apart, cells, csv_table, csv_text-cells}
use lemuel_quant_core.Dwh.Writer.Columns.{table_of, text_left, write_complete}
use lemuel_quant_core.Dwh.Rollup.Files.{RollupConfig, Rolled, Put, Content, roll}
use lemuel_quant_core.Dwh.Loop.{
  Warehouse, appended, tick, run_loop, count_files, run_loop-behind, run_loop-tick,
}
use lemuel_quant_core.Dwh.Store.{append}
use lemuel_quant_core.Tests.Storing.{sort_rows, count-sort_rows, row_at}

abbrev buy_row : Row ℕ
buy_row = record {
  ts_ns = 7;
  channel = lit "trade";
  tags = (lit "symbol", lit "btcusdt") ∷ [];
  values = (lit "qty", 5) ∷ (lit "price", 70) ∷ [];
}

abbrev news_row : Row ℕ
news_row = record {
  ts_ns = 8;
  channel = lit "news";
  tags = (lit "source", lit "yna") ∷ (lit "symbol", []) ∷ [];
  values = (lit "score", 2) ∷ [];
}

abbrev are_apart : List (List Bytes) → Bool
are_apart [] = true
are_apart ([] ∷ rows) = are_apart rows
are_apart ((c ∷ row) ∷ rows) = is_free 0x2C c && is_free 0x0A c && are_apart (row ∷ rows)

row-Apart :
    (row : List Bytes) (rows : List (List Bytes))
    → are_apart (row ∷ rows) ≡ true
    → All (Apart 0x2C 0x0A) row × (are_apart rows ≡ true)
row-Apart [] rows h = (tt, h)
row-Apart (c ∷ row) rows h =
    let (rest, more) = row-Apart row rows (ground arith) in
    (((is_free→Free 0x2C c (ground arith), is_free→Free 0x0A c (ground arith)), rest), more)

table-Apart :
    (rows : List (Bytes × List Bytes))
    → are_apart (map cells rows) ≡ true
    → All (λ row. All (Apart 0x2C 0x0A) (cells row)) rows
table-Apart [] h = tt
table-Apart (row ∷ rows) h =
    let (first, rest) = row-Apart (cells row) (map cells rows) h in (first, table-Apart rows rest)

rows_apart : are_apart (map cells (csv_table decimal (buy_row ∷ news_row ∷ []))) ≡ true
unfolding decimal
rows_apart = refl

csv_text-cells_example :
    (map (split 0x2C) (split 0x0A (csv_text decimal (buy_row ∷ news_row ∷ [])))
      ≡ map cells (csv_table decimal (buy_row ∷ news_row ∷ [])) ++ ([] ∷ []) ∷ [])
    × IsKeySet (λ k. any_tag k (buy_row ∷ news_row ∷ [])) (tag_keys (buy_row ∷ news_row ∷ []) [])
    × IsKeySet
        (λ k. any_value k (buy_row ∷ news_row ∷ []))
        (value_keys (buy_row ∷ news_row ∷ []) [])
csv_text-cells_example =
    csv_text-cells decimal (buy_row ∷ news_row ∷ [])
      (table-Apart (csv_table decimal (buy_row ∷ news_row ∷ [])) rows_apart)

-- The table of the two rows: an empty cell where a row lacks the key.
csv_rows :
    map cells (csv_table decimal (buy_row ∷ news_row ∷ []))
    ≡ (lit "ts_ns"
        ∷ lit "channel"
        ∷ lit "tag.source"
        ∷ lit "tag.symbol"
        ∷ lit "val.price"
        ∷ lit "val.qty"
        ∷ lit "val.score"
        ∷ [])
      ∷ (lit "7" ∷ lit "trade" ∷ [] ∷ lit "btcusdt" ∷ lit "70" ∷ lit "5" ∷ [] ∷ [])
      ∷ (lit "8" ∷ lit "news" ∷ lit "yna" ∷ [] ∷ [] ∷ [] ∷ lit "2" ∷ [])
      ∷ []
unfolding decimal
csv_rows = refl

-- All calls succeed.
abbrev arrow : Arrow ℕ
arrow = record {
  append_int = λ b v. true;
  append_text = λ b v. true;
  append_double = λ b v. true;
  finish_int = λ b. true;
  finish_text = λ b. true;
  finish_double = λ b. true;
}

abbrev other_path : Bytes → Bytes
other_path path = path ++ lit ".csv"

-- A disk that takes every text.
abbrev put_all : Bytes → Bytes → Option Bytes
put_all path text = some text

write_complete_example :
    ((write arrow (λ p. true) (λ p t. false) put_all decimal other_path (lit "a") (buy_row ∷ [])
        ≡ parquet (lit "a") (table_of (buy_row ∷ [])) ∷ [])
      ⊎ ((write arrow (λ p. true) (λ p t. false) put_all decimal other_path (lit "a") (buy_row ∷ [])
            ≡ text_left put_all decimal other_path (lit "a") (buy_row ∷ []))
          ⊎ (write arrow
                (λ p. true)
                (λ p t. false)
                put_all
                decimal
                other_path
                (lit "a")
                (buy_row ∷ [])
              ≡ truncated (lit "a")
                ∷ text_left put_all decimal other_path (lit "a") (buy_row ∷ []))))
    × IsKeySet (λ k. any_tag k (buy_row ∷ [])) (tag_keys (buy_row ∷ []) [])
    × IsKeySet (λ k. any_value k (buy_row ∷ [])) (value_keys (buy_row ∷ []) [])
write_complete_example =
    write_complete arrow (λ p. true) (λ p t. false) put_all decimal other_path (lit "a") buy_row []

abbrev cfg : RollupConfig
cfg = record {
  out_dir = lit "dwh";
  r2_endpoint = lit "r2";
  r2_bucket = lit "lemuel-quant";
  r2_access_key = lit "key";
  r2_secret_key = lit "secret";
  key_prefix = lit "snapshots";
}

abbrev join_path : Bytes → Bytes → Bytes
join_path dir name = dir ++ (lit "/" ++ name)

abbrev one_trade : List (Bytes × List (Row ℕ))
unfolding append
one_trade = append buy_row []

abbrev path : Bytes
path = lit "dwh/rollup-19700101-000000.parquet"

abbrev stamp : ℕ → Bytes
stamp until = lit "19700101-000000"

abbrev rolled : Rolled ℕ
unfolding one_trade
rolled =
    roll sort_rows (write arrow (λ p. false) (λ p t. true) put_all decimal other_path) stamp
      join_path cfg one_trade 5 9

abbrev put : Content ℕ → Put ℕ
put body = record {
  bucket = lit "lemuel-quant";
  key = lit "snapshots/rollup-19700101-000000.parquet";
  body = body;
}

abbrev warehouse : Warehouse ℕ
warehouse = record { store = []; last_until = 100; files = [] }

abbrev is_late : Row ℕ → Bool
is_late r = r.ts_ns == 90

-- A row with the stamp 90 that is appended behind the rollup with the bound 100.
run_loop-behind_example :
    count_files is_late
      (run_loop sort_rows (appended (row_at 90) ∷ tick 200 false ∷ []) warehouse).files
    ≡ 0
run_loop-behind_example =
    run_loop-behind sort_rows count-sort_rows is_late (appended (row_at 90) ∷ tick 200 false ∷ [])
      warehouse (λ r h. ground arith) (omega arith, tt)

run_loop-tick_example :
    count_files
      (λ r. r.ts_ns == 150)
      (run_loop sort_rows (appended (row_at 150) ∷ tick 200 false ∷ []) warehouse).files
    ≡ suc (
        count_files
          (λ r. r.ts_ns == 150)
          (run_loop sort_rows (tick 200 false ∷ []) warehouse).files)
run_loop-tick_example =
    run_loop-tick sort_rows count-sort_rows (λ r. r.ts_ns == 150) (row_at 150) 200 warehouse refl
      refl (omega arith) (omega arith)
