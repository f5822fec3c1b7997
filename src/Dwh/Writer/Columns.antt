-- ===== src/Dwh/Writer/Columns.antt =====
-- The table that `rows_to_table` makes, and what `write` leaves in files
-- (modules/data-warehouse/src/parquet_writer.cpp).
use mathlib.Core.Path.{fun_ext}
use lemuel_quant_core.Base.{
  ℕ, ◌≡◌, ◌⊎◌, refl, sym, subst, ap, ap₂, ◌∙◌, Bool, true, false, Bool-cases, inl, inr, List, [],
  ◌∷◌, ◌++◌, map, append_assoc, append-nil, Option, none, some, ◌>>=◌, if◌then◌else◌,
}
use lemuel_quant_core.Base.Bytes.{Bytes, lit, is_empty}
use lemuel_quant_core.Dwh.Writer.Keys.{
  IsKeySet, any_tag, any_value, tag_keys-IsKeySet, value_keys-IsKeySet, first_at, value_at-first_at,
}
use lemuel_quant_core.Dwh.{Row}
use lemuel_quant_core.Dwh.Writer.{
  value_at, tag_keys, value_keys, tag_cell, Arrow, Table, push_all, new_builders, finish_all,
  append_row, append_rows, rows_to_table, csv, parquet, truncated, Written, write, csv_text,
}

-- The call fails, or it gives the value.
abbrev Gives {ℓ} : {A : Type ℓ} → Option A → A → Type ℓ
Gives o a = (o ≡ none) ⊎ (o ≡ some a)

Gives-bind {ℓ κ} :
    {A : Type ℓ} {B : Type κ} (o : Option A) (f : A → Option B) (a : A) (b : B)
    → Gives o a
    → Gives (f a) b
    → Gives (o >>= f) b
Gives-bind o f a b (inl e) h = inl (rw e refl)
Gives-bind o f a b (inr e) h = rw e h

Gives-if {ℓ} : {A : Type ℓ} (c : Bool) (a : A) → Gives (if c then some a else none) a
Gives-if true a = inr refl
Gives-if false a = inl refl

map-snoc {ℓ κ} :
    {A : Type ℓ} {B : Type κ} (f : A → B) (xs : List A) (x : A)
    → map f xs ++ f x ∷ [] ≡ map f (xs ++ x ∷ [])
map-snoc f [] x = refl
map-snoc f (y ∷ xs) x = ap (◌∷◌ (f y)) (map-snoc f xs x)

module _ {ℓ} {V : Type ℓ} where
  -- A column for each key.
  abbrev columns : (Bytes → List V) → List Bytes → List (Bytes × List V)
  columns f [] = []
  columns f (k ∷ keys) = (k, f k) ∷ columns f keys

  columns_ext :
      (f g : Bytes → List V) (keys : List Bytes)
      → ((k : Bytes) → f k ≡ g k)
      → columns f keys ≡ columns g keys
  columns_ext f g [] h = refl
  columns_ext f g (k ∷ keys) h = ap₂ (λ b l. (k, b) ∷ l) (h k) (columns_ext f g keys h)

  push_all-columns :
      (is_ok : List V → V → Bool) (v : Bytes → V) (f : Bytes → List V) (keys : List Bytes)
      → Gives (push_all is_ok v (columns f keys)) (columns (λ k. f k ++ v k ∷ []) keys)
  push_all-columns is_ok v f [] = inr refl
  push_all-columns is_ok v f (k ∷ keys) =
      Gives-bind _ _ _ _ (Gives-if (is_ok (f k) (v k)) _)
        (Gives-bind _ _ _ _ (push_all-columns is_ok v f keys) (inr refl))

  finish_all-columns :
      (is_ok : List V → Bool) (prefix : Bytes) (f : Bytes → List V) (keys : List Bytes)
      → Gives
          (finish_all is_ok prefix (columns f keys))
          (map {B = Bytes × List V} (λ k. (prefix ++ k, f k)) keys)
  finish_all-columns is_ok prefix f [] = inr refl
  finish_all-columns is_ok prefix f (k ∷ keys) =
      Gives-bind _ _ _ _ (Gives-if (is_ok (f k)) _)
        (Gives-bind _ _ _ _ (finish_all-columns is_ok prefix f keys) (inr refl))

  new_builders-columns : (keys : List Bytes) → new_builders {V = V} keys ≡ columns (λ k. []) keys
  new_builders-columns [] = refl
  new_builders-columns (k ∷ keys) = ap (◌∷◌ (k, [])) (new_builders-columns keys)

module _ {ℓ} {D : Type ℓ} (arrow : Arrow D) (tks vks : List Bytes) where
  -- The builders behind the rows `done`.
  abbrev built : List (Row D) → Table D
  built done = record {
    ts = map (λ r. r.ts_ns) done;
    channel = map (λ r. some r.channel) done;
    tag_columns = columns (λ k. map (λ r. tag_cell r.tags k) done) tks;
    value_columns = columns (λ k. map (λ r. value_at k r.values) done) vks;
  }

  table_eq :
      (ts ts1 : List ℕ) (ch ch1 : List (Option Bytes))
      (tags tags1 : List (Bytes × List (Option Bytes)))
      (values values1 : List (Bytes × List (Option D)))
      → ts ≡ ts1
      → ch ≡ ch1
      → tags ≡ tags1
      → values ≡ values1
      → ◌≡◌ {A = Table D}
          (record { ts = ts; channel = ch; tag_columns = tags; value_columns = values })
          (record { ts = ts1; channel = ch1; tag_columns = tags1; value_columns = values1 })
  table_eq ts ts1 ch ch1 tags tags1 values values1 a b c d = cc

  append_row-built :
      (r : Row D) (done : List (Row D))
      → Gives (append_row arrow r (built done)) (built (done ++ r ∷ []))
  unfolding append_row
  append_row-built r done = Gives-bind _ _ _ _ (Gives-if (arrow.append_int _ r.ts_ns) _) (
      Gives-bind _ _ _ _ (Gives-if (arrow.append_text _ (some r.channel)) _) (
        Gives-bind _ _ _ _ (push_all-columns arrow.append_text (tag_cell r.tags) _ tks) (
          Gives-bind _ _ _ _ (push_all-columns arrow.append_double (λ k. value_at k r.values) _ vks)
            (inr (
              ap some (
                table_eq _ _ _ _ _ _ _ _ (map-snoc (λ q. q.ts_ns) done r)
                  (map-snoc (λ q. some q.channel) done r)
                  (columns_ext _ _ tks (λ k. map-snoc (λ q. tag_cell q.tags k) done r))
                  (columns_ext _ _ vks (λ k. map-snoc (λ q. value_at k q.values) done r))))))))

  append_rows-built :
      (done rows : List (Row D))
      → Gives (append_rows arrow rows (built done)) (built (done ++ rows))
  unfolding append_rows
  append_rows-built done [] = rw (append-nil done) (inr refl)
  append_rows-built done (r ∷ rows) =
      Gives-bind _ _ _ _ (append_row-built r done)
        (rw (sym (append_assoc done (r ∷ []) rows)) (append_rows-built (done ++ r ∷ []) rows))

abbrev text_or_null : Option Bytes → Option Bytes
text_or_null none = none
text_or_null (some v) = if is_empty v then none else some v

tag_cell-first_at :
    (tags : List (Bytes × Bytes)) (k : Bytes) → tag_cell tags k ≡ text_or_null (first_at k tags)
tag_cell-first_at tags k = null_empty (value_at k tags) ∙ ap text_or_null (value_at-first_at k tags)
  where
    null_empty :
        (o : Option Bytes)
        → (elim o [ none ↦ none | some v ↦ if is_empty v then none else some v ]) ≡ text_or_null o
    null_empty none = refl
    null_empty (some v) = refl

module _ {ℓ} {D : Type ℓ} where
  abbrev table_with :
      (List (Bytes × Bytes) → Bytes → Option Bytes)
      → (Bytes → List (Bytes × D) → Option D)
      → List (Row D)
      → Table D
  table_with tag_at value rows = record {
    ts = map (λ r. r.ts_ns) rows;
    channel = map (λ r. some r.channel) rows;
    tag_columns =
        map {B = Bytes × List (Option Bytes)}
          (λ k. (lit "tag." ++ k, map (λ r. tag_at r.tags k) rows)) (tag_keys rows []);
    value_columns =
        map {B = Bytes × List (Option D)} (λ k. (lit "val." ++ k, map (λ r. value k r.values) rows))
          (value_keys rows []);
  }

  -- The time stamps and channels of the rows, and a column for each key of any row, where a row without
  -- the key, or with an empty tag there, has a null.
  abbrev pub table_of : List (Row D) → Table D
  table_of rows = table_with (λ tags k. text_or_null (first_at k tags)) first_at rows

  table_with-table_of : (rows : List (Row D)) → table_with tag_cell value_at rows ≡ table_of rows
  table_with-table_of rows =
      ap₂ (λ tag_at value. table_with tag_at value rows)
        (fun_ext (λ tags. fun_ext (λ k. tag_cell-first_at tags k)))
        (fun_ext (λ k. fun_ext (λ kvs. value_at-first_at k kvs)))

  -- The table is an error, or it has the time stamps and channels of the rows, and under the name of each
  -- key the cells of all rows in their order.
  rows_to_table_lem :
      (arrow : Arrow D) (rows : List (Row D)) → Gives (rows_to_table arrow rows) (table_of rows)
  unfolding rows_to_table
  rows_to_table_lem arrow rows =
      let tks = tag_keys rows [] in
      let vks = value_keys rows [] in
      subst (Gives (rows_to_table arrow rows)) (table_with-table_of rows) (
        rw (new_builders-columns {V = Option Bytes} tks, new_builders-columns {V = Option D} vks)
          (Gives-bind _ _ _ _ (append_rows-built arrow tks vks [] rows) (
            Gives-bind _ _ _ _ (Gives-if (arrow.finish_int _) _) (
              Gives-bind _ _ _ _ (Gives-if (arrow.finish_text _) _) (
                Gives-bind _ _ _ _ (finish_all-columns arrow.finish_text (lit "tag.") _ tks) (
                  Gives-bind _ _ _ _ (finish_all-columns arrow.finish_double (lit "val.") _ vks)
                    (inr refl)))))))

  -- What the stream leaves of the text of some rows.
  abbrev pub text_left :
      (Bytes → Bytes → Option Bytes)
      → (D → Bytes)
      → (Bytes → Bytes)
      → Bytes
      → List (Row D)
      → List (Written D)
  text_left put_text show replace_extension path rows =
      elim (put_text (replace_extension path) (csv_text show rows)) [
        | none ↦ []
        | some kept ↦ csv (replace_extension path) kept ∷ []
      ]

  module _ (arrow : Arrow D) (is_opened : Bytes → Bool) (is_written : Bytes → Table D → Bool)
      (put_text : Bytes → Bytes → Option Bytes) (show : D → Bytes)
      (replace_extension : Bytes → Bytes) where
    write_left :
        (path : Bytes) (r : Row D) (rows : List (Row D))
        → let out =
            write arrow is_opened is_written put_text show replace_extension path (r ∷ rows) in
          let left = text_left put_text show replace_extension path (r ∷ rows) in
          (out ≡ parquet path (table_of (r ∷ rows)) ∷ [])
          ⊎ ((out ≡ left) ⊎ (out ≡ truncated path ∷ left))
    unfolding write
    write_left path r rows = elim (rows_to_table_lem arrow (r ∷ rows)) [
      | inl n ↦ inr (inl (rw (n, write) refl))
      | inr e ↦ elim (Bool-cases (is_opened path)) [
        | inl t ↦ elim (Bool-cases (is_written path (table_of (r ∷ rows)))) [
          | inl u ↦ inl (rw (e, t, u, write) refl)
          | inr g ↦ inr (inr (rw (e, t, g, write) refl))
        ]
        | inr f ↦ inr (inl (rw (e, f, write) refl))
      ]
    ]

    -- `write` leaves the table of all rows in the file of the path; or, behind nothing but an unfilled file
    -- of the path, what a stream takes of their text, in the file with the other extension, which is no file
    -- if the stream does not open. The columns of the table are those of the keys that some row has, each
    -- once and in ascending order.
    pub write_complete :
        (path : Bytes) (r : Row D) (rows : List (Row D))
        → let out =
            write arrow is_opened is_written put_text show replace_extension path (r ∷ rows) in
          let left = text_left put_text show replace_extension path (r ∷ rows) in
          ((out ≡ parquet path (table_of (r ∷ rows)) ∷ [])
            ⊎ ((out ≡ left) ⊎ (out ≡ truncated path ∷ left)))
          × IsKeySet (λ k. any_tag k (r ∷ rows)) (tag_keys (r ∷ rows) [])
          × IsKeySet (λ k. any_value k (r ∷ rows)) (value_keys (r ∷ rows) [])
    write_complete path r rows =
        (write_left path r rows, tag_keys-IsKeySet (r ∷ rows), value_keys-IsKeySet (r ∷ rows))
