-- ===== src/Dwh/Writer.antt =====
-- `ParquetWriter` (modules/data-warehouse/src/parquet_writer.cpp). How a `double` is printed, the change
-- of a path's extension and the success of each call of Arrow are arguments; a builder is the list of
-- what was appended to it, where `none` is a null. The result lists what is done to the file system.
pub mod Keys
pub mod Csv
pub mod Columns
use lemuel_quant_core.Base.{
  ℕ, Bool, true, false, ◌&&◌, ◌==◌, ltb, if◌then◌else◌, Option, none, some, ◌>>=◌, List, [], ◌∷◌,
  ◌++◌,
}
use lemuel_quant_core.Base.Bytes.{Bytes, lit, bytes_eq, is_empty, decimal}
use lemuel_quant_core.Dwh.{Row}

-- `operator<` of strings.
abbrev pub bytes_lt : Bytes → Bytes → Bool
bytes_lt xs [] = false
bytes_lt [] (y ∷ ys) = true
bytes_lt (x ∷ xs) (y ∷ ys) =
    let rest = bytes_lt xs ys in if ltb x y then true else if x == y then rest else false

-- A `std::set` of strings is the ascending list of them.
abbrev insert_key : Bytes → List Bytes → List Bytes
insert_key k [] = k ∷ []
insert_key k (x ∷ xs) =
    let rest = insert_key k xs in
    if bytes_lt k x then k ∷ x ∷ xs else if bytes_eq k x then x ∷ xs else x ∷ rest

module _ {ℓ} {V : Type ℓ} where
  abbrev insert_keys : List (Bytes × V) → List Bytes → List Bytes
  insert_keys [] keys = keys
  insert_keys ((k, v) ∷ kvs) keys = insert_keys kvs (insert_key k keys)

  -- The loop with the `break`: the first value at the key.
  abbrev pub value_at : Bytes → List (Bytes × V) → Option V
  value_at k [] = none
  value_at k ((vk, vv) ∷ kvs) = if bytes_eq vk k then some vv else value_at k kvs

  -- The cells of one row behind its channel.
  abbrev pub write_cells : (V → Bytes) → List (Bytes × V) → List Bytes → Bytes
  write_cells show kvs [] = []
  write_cells show kvs (k ∷ keys) =
      lit ","
      ++ ((elim (value_at k kvs) [ none ↦ [] | some v ↦ show v ]) ++ write_cells show kvs keys)

abbrev pub write_names : Bytes → List Bytes → Bytes
write_names prefix [] = []
write_names prefix (k ∷ keys) = lit "," ++ (prefix ++ (k ++ write_names prefix keys))

abbrev pub csv_header : List Bytes → List Bytes → Bytes
csv_header tks vks =
    lit "ts_ns,channel"
    ++ (write_names (lit "tag.") tks ++ (write_names (lit "val.") vks ++ lit "\n"))

module _ {ℓ} {D : Type ℓ} where
  abbrev pub tag_keys : List (Row D) → List Bytes → List Bytes
  tag_keys [] keys = keys
  tag_keys (r ∷ rows) keys = tag_keys rows (insert_keys r.tags keys)

  abbrev pub value_keys : List (Row D) → List Bytes → List Bytes
  value_keys [] keys = keys
  value_keys (r ∷ rows) keys = value_keys rows (insert_keys r.values keys)

  abbrev pub csv_line : (D → Bytes) → List Bytes → List Bytes → Row D → Bytes
  csv_line show tks vks r =
      decimal r.ts_ns
      ++ (lit ","
          ++ (r.channel
              ++ (write_cells (λ v. v) r.tags tks ++ (write_cells show r.values vks ++ lit "\n"))))

  abbrev pub csv_lines : (D → Bytes) → List Bytes → List Bytes → List (Row D) → Bytes
  csv_lines show tks vks [] = []
  csv_lines show tks vks (r ∷ rows) = csv_line show tks vks r ++ csv_lines show tks vks rows

  -- What `write_csv_fallback` writes.
  unfoldable pub csv_text : (D → Bytes) → List (Row D) → Bytes
  csv_text show rows =
      let tks = tag_keys rows [] in
      let vks = value_keys rows [] in csv_header tks vks ++ csv_lines show tks vks rows

-- Whether the calls of Arrow succeed: for a builder, given what it holds and what is appended.
pub record Arrow {ℓ} (D : Type ℓ) : Type ℓ where
  pub append_int : List ℕ → ℕ → Bool
  pub append_text : List (Option Bytes) → Option Bytes → Bool
  pub append_double : List (Option D) → Option D → Bool
  pub finish_int : List ℕ → Bool
  pub finish_text : List (Option Bytes) → Bool
  pub finish_double : List (Option D) → Bool

-- The columns `ts_ns` and `channel`, and those of the tags and of the values by their names.
pub record Table {ℓ} (D : Type ℓ) : Type ℓ where
  pub ts : List ℕ
  pub channel : List (Option Bytes)
  pub tag_columns : List (Bytes × List (Option Bytes))
  pub value_columns : List (Bytes × List (Option D))

module _ {ℓ} {V : Type ℓ} where
  -- One more element at the end, if that succeeds.
  abbrev pub push : (List V → V → Bool) → V → List V → Option (List V)
  push is_ok v b = if is_ok b v then some (b ++ v ∷ []) else none

  -- The loop over the builders, for one row.
  abbrev pub push_all :
      (List V → V → Bool) → (Bytes → V) → List (Bytes × List V) → Option (List (Bytes × List V))
  push_all is_ok v [] = some []
  push_all is_ok v ((k, b) ∷ builders) = do
    b1 ← push is_ok (v k) b
    builders1 ← push_all is_ok v builders
    some ((k, b1) ∷ builders1)

  abbrev pub new_builders : List Bytes → List (Bytes × List V)
  new_builders [] = []
  new_builders (k ∷ keys) = (k, []) ∷ new_builders keys

  -- The columns under their names, if each `Finish` succeeds.
  abbrev pub finish_all :
      (List V → Bool) → Bytes → List (Bytes × List V) → Option (List (Bytes × List V))
  finish_all is_ok prefix [] = some []
  finish_all is_ok prefix ((k, b) ∷ builders) = do
    column ← if is_ok b then some b else none
    columns ← finish_all is_ok prefix builders
    some ((prefix ++ k, column) ∷ columns)

-- An empty tag is a null.
abbrev pub tag_cell : List (Bytes × Bytes) → Bytes → Option Bytes
tag_cell tags k = elim (value_at k tags) [
  | none ↦ none
  | some v ↦ if is_empty v then none else some v
]

module _ {ℓ} {D : Type ℓ} (arrow : Arrow D) where
  -- The loop over the rows; `none` is the early return of an error.
  unfoldable pub append_row : Row D → Table D → Option (Table D)
  append_row r t = do
    ts ← push arrow.append_int r.ts_ns t.ts
    channel ← push arrow.append_text (some r.channel) t.channel
    tag_columns ← push_all arrow.append_text (tag_cell r.tags) t.tag_columns
    value_columns ← push_all arrow.append_double (λ k. value_at k r.values) t.value_columns
    some (record {
      ts = ts;
      channel = channel;
      tag_columns = tag_columns;
      value_columns = value_columns;
    })

  unfoldable pub append_rows : List (Row D) → Table D → Option (Table D)
  unfolding append_row
  append_rows [] t = some t
  append_rows (r ∷ rows) t = append_row r t >>= append_rows rows

  unfoldable finish : Table D → Option (Table D)
  finish t = do
    ts ← if arrow.finish_int t.ts then some t.ts else none
    channel ← if arrow.finish_text t.channel then some t.channel else none
    tag_columns ← finish_all arrow.finish_text (lit "tag.") t.tag_columns
    value_columns ← finish_all arrow.finish_double (lit "val.") t.value_columns
    some (record {
      ts = ts;
      channel = channel;
      tag_columns = tag_columns;
      value_columns = value_columns;
    })

  unfoldable pub rows_to_table : List (Row D) → Option (Table D)
  unfolding append_rows finish
  rows_to_table rows =
      let start : Table D = record {
        ts = [];
        channel = [];
        tag_columns = new_builders (tag_keys rows []);
        value_columns = new_builders (value_keys rows []);
      } in
      append_rows rows start >>= finish

-- What is done to the file system; `truncated` is a file that `Open` made and `WriteTable` did not fill.
pub data Written {ℓ} (D : Type ℓ) : Type ℓ where
  csv : Bytes → Bytes → Written D
  parquet : Bytes → Table D → Written D
  truncated : Bytes → Written D

module _ {ℓ} {D : Type ℓ} (arrow : Arrow D) (is_opened : Bytes → Bool)
    (is_written : Bytes → Table D → Bool) (put_text : Bytes → Bytes → Option Bytes)
    (show : D → Bytes) (replace_extension : Bytes → Bytes) where
  -- `put_text` is what of a text gets into the file of a path by a stream whose failures are not looked at;
  -- none if it does not open.
  unfoldable pub write_csv_fallback : Bytes → List (Row D) → List (Written D)
  unfolding csv_text
  write_csv_fallback path rows = elim (put_text (replace_extension path) (csv_text show rows)) [
    | none ↦ []
    | some kept ↦ csv (replace_extension path) kept ∷ []
  ]

  -- `write`, where Parquet is linked.
  unfoldable pub write : Bytes → List (Row D) → List (Written D)
  unfolding write_csv_fallback rows_to_table
  write path [] = []
  write path (r ∷ rows) = elim (rows_to_table arrow (r ∷ rows)) [
    | none ↦ write_csv_fallback path (r ∷ rows)
    | some table ↦
        if is_opened path
        then if is_written path table
          then parquet path table ∷ []
          else truncated path ∷ write_csv_fallback path (r ∷ rows)
        else write_csv_fallback path (r ∷ rows)
  ]
