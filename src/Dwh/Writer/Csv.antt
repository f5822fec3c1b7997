-- ===== src/Dwh/Writer/Csv.antt =====
-- What can be read back from the file that `write_csv_fallback` writes
-- (modules/data-warehouse/src/parquet_writer.cpp).
use lemuel_quant_core.Base.{
  ℕ, ◌≡◌, ◌≢◌, refl, sym, ap, ap₂, ◌∙◌, List, [], ◌∷◌, ◌++◌, map, append_assoc, arith, All, none,
  some, Bool-cases, inl, inr, if◌then◌else◌,
}
use lemuel_quant_core.Base.Bytes.{Bytes, lit, decimal, bytes_eq}
use lemuel_quant_core.Dwh.Writer.Keys.{
  IsKeySet, any_tag, any_value, tag_keys-IsKeySet, value_keys-IsKeySet,
}
use lemuel_quant_core.Base.Split.{split, join, Free, split-join}
use lemuel_quant_core.Base.Join.{led, ended, join-led, led-append, join-Free, All-imp, split-ended}
use lemuel_quant_core.Dwh.{Row}
use lemuel_quant_core.Dwh.Writer.{
  value_at, write_cells, write_names, tag_keys, value_keys, csv_line, csv_lines, csv_header,
  csv_text,
}

-- A row of a table: its first cell and the others.
abbrev Cells : Type 0
Cells = Bytes × List Bytes

abbrev pub cells : Cells → List Bytes
cells row = row.0 ∷ row.1

abbrev pub Apart : ℕ → ℕ → Bytes → Type 0
Apart d e c = Free d c × Free e c

abbrev line : ℕ → Cells → Bytes
line d row = join d (cells row)

-- The cells of a table whose lines end with `e` and whose cells are parted by `d`.
module _ (d e : ℕ) (n : d ≢ e) where
  lines-Free :
      (table : List Cells)
      → All (λ row. All (Apart d e) (cells row)) table
      → All (Free e) (map (line d) table)
  lines-Free [] h = tt
  lines-Free (row ∷ table) (h, hs) =
      (join-Free e d (cells row) n (All-imp (λ c k. k.1) (cells row) h), lines-Free table hs)

  split-lines :
      (table : List Cells)
      → All (λ row. All (Apart d e) (cells row)) table
      → map (split d) (map (line d) table ++ [] ∷ []) ≡ map cells table ++ ([] ∷ []) ∷ []
  split-lines [] h = ap (λ l. l ∷ []) (split-join d [] [] (tt, tt))
  split-lines (row ∷ table) (h, hs) =
      ap₂ ◌∷◌ (split-join d row.0 row.1 (All-imp (λ c k. k.0) (cells row) h)) (split-lines table hs)

  ended-cells :
      (table : List Cells)
      → All (λ row. All (Apart d e) (cells row)) table
      → map (split d) (split e (ended e (map (line d) table))) ≡ map cells table ++ ([] ∷ []) ∷ []
  ended-cells table h =
      ap (map (split d)) (split-ended e (map (line d) table) (lines-Free table h))
      ∙ split-lines table h

module _ {ℓ} {V : Type ℓ} where
  -- What stands in the column of a key: the first value there, or nothing.
  abbrev pub cell : (V → Bytes) → List (Bytes × V) → Bytes → Bytes
  cell show [] k = []
  cell show ((j, v) ∷ kvs) k = let rest = cell show kvs k in if bytes_eq j k then show v else rest

  cell-value_at :
      (show : V → Bytes) (kvs : List (Bytes × V)) (k : Bytes)
      → (elim (value_at k kvs) [ none ↦ [] | some v ↦ show v ]) ≡ cell show kvs k
  cell-value_at show [] k = refl
  cell-value_at show ((j, v) ∷ kvs) k = elim (Bool-cases (bytes_eq j k)) [
    | inl t ↦ rw t refl
    | inr f ↦ rw f (cell-value_at show kvs k)
  ]

  write_cells-led :
      (show : V → Bytes) (kvs : List (Bytes × V)) (keys : List Bytes)
      → write_cells show kvs keys ≡ led 0x2C (map (cell show kvs) keys)
  write_cells-led show kvs [] = refl
  write_cells-led show kvs (k ∷ keys) =
      ap₂ (λ c t. 0x2C ∷ (c ++ t)) (cell-value_at show kvs k) (write_cells-led show kvs keys)

write_names-led :
    (prefix : Bytes) (keys : List Bytes)
    → write_names prefix keys ≡ led 0x2C (map (λ k. prefix ++ k) keys)
write_names-led prefix [] = refl
write_names-led prefix (k ∷ keys) =
    ap (λ t. 0x2C ∷ t)
      (sym (append_assoc prefix k _) ∙ ap (λ t. (prefix ++ k) ++ t) (write_names-led prefix keys))

row_text :
    (a b : Bytes) (xs ys : List Bytes) (rest : Bytes)
    → (a ++ (0x2C ∷ (b ++ (led 0x2C xs ++ (led 0x2C ys ++ 0x0A ∷ []))))) ++ rest
      ≡ join 0x2C (a ∷ b ∷ (xs ++ ys)) ++ (0x0A ∷ rest)
row_text a b xs ys rest = rw (join-led 0x2C b (xs ++ ys), led-append 0x2C xs ys) (simp append_assoc)

abbrev header_cells : List Bytes → List Bytes → Cells
header_cells tks vks = (
  lit "ts_ns",
  lit "channel" ∷ (map (λ k. lit "tag." ++ k) tks ++ map (λ k. lit "val." ++ k) vks),
)

module _ {ℓ} {D : Type ℓ} (show : D → Bytes) where
  abbrev row_cells : List Bytes → List Bytes → Row D → Cells
  row_cells tks vks r = (
    decimal r.ts_ns,
    r.channel ∷ (map (cell (λ v. v) r.tags) tks ++ map (cell show r.values) vks),
  )

  -- The header and a line for each row, with a cell for each key that a row has.
  abbrev pub csv_table : List (Row D) → List Cells
  csv_table rows =
      let tks = tag_keys rows [] in
      let vks = value_keys rows [] in header_cells tks vks ∷ map (row_cells tks vks) rows

  csv_line-ended :
      (tks vks : List Bytes) (r : Row D) (rest : Bytes)
      → csv_line show tks vks r ++ rest ≡ line 0x2C (row_cells tks vks r) ++ (0x0A ∷ rest)
  csv_line-ended tks vks r rest =
      rw (write_cells-led (λ v. v) r.tags tks, write_cells-led show r.values vks)
        (row_text (decimal r.ts_ns) r.channel (map (cell (λ v. v) r.tags) tks)
          (map (cell show r.values) vks) rest)

  csv_lines-ended :
      (tks vks : List Bytes) (rows : List (Row D))
      → csv_lines show tks vks rows ≡ ended 0x0A (map (line 0x2C) (map (row_cells tks vks) rows))
  csv_lines-ended tks vks [] = refl
  csv_lines-ended tks vks (r ∷ rows) =
      csv_line-ended tks vks r (csv_lines show tks vks rows)
      ∙ ap (λ t. line 0x2C (row_cells tks vks r) ++ (0x0A ∷ t)) (csv_lines-ended tks vks rows)

  csv_header-ended :
      (tks vks : List Bytes) (rest : Bytes)
      → csv_header tks vks ++ rest ≡ line 0x2C (header_cells tks vks) ++ (0x0A ∷ rest)
  csv_header-ended tks vks rest =
      rw (write_names-led (lit "tag.") tks, write_names-led (lit "val.") vks)
        (row_text (lit "ts_ns") (lit "channel") (map (λ k. lit "tag." ++ k) tks)
          (map (λ k. lit "val." ++ k) vks) rest)

  csv_text-csv_table :
      (rows : List (Row D))
      → All (λ row. All (Apart 0x2C 0x0A) (cells row)) (csv_table rows)
      → map (split 0x2C) (split 0x0A (csv_text show rows))
        ≡ map cells (csv_table rows) ++ ([] ∷ []) ∷ []
  unfolding csv_text
  csv_text-csv_table rows h =
      let tks = tag_keys rows [] in
      let vks = value_keys rows [] in
      ap (λ t. map (split 0x2C) (split 0x0A t))
        (csv_header-ended tks vks (csv_lines show tks vks rows)
          ∙ ap (λ t. line 0x2C (header_cells tks vks) ++ (0x0A ∷ t)) (csv_lines-ended tks vks rows))
      ∙ ended-cells 0x2C 0x0A (λ e. omega arith) (csv_table rows) h

  -- If no key, no channel, no tag and no printed value has a comma or a line end, the file that
  -- `write_csv_fallback` writes reads back as the table of its rows: cut at the line ends and then at the
  -- commas, it is the header and a line for each row in turn, with one cell for the stamp, one for the
  -- channel and one for each key, which is empty where the row lacks the key; and the empty line behind the
  -- last line end. The columns are those of the keys that some row has as a tag, and then of those that some
  -- row has as a value, each once and in ascending order.
  pub csv_text-cells :
      (rows : List (Row D))
      → All (λ row. All (Apart 0x2C 0x0A) (cells row)) (csv_table rows)
      → (map (split 0x2C) (split 0x0A (csv_text show rows))
          ≡ map cells (csv_table rows) ++ ([] ∷ []) ∷ [])
        × IsKeySet (λ k. any_tag k rows) (tag_keys rows [])
        × IsKeySet (λ k. any_value k rows) (value_keys rows [])
  csv_text-cells rows h =
      (csv_text-csv_table rows h, tag_keys-IsKeySet rows, value_keys-IsKeySet rows)
