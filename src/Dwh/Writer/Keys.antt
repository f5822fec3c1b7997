-- ===== src/Dwh/Writer/Keys.antt =====
-- The sets of keys that the writer collects (modules/data-warehouse/src/parquet_writer.cpp): the keys of
-- the rows, each once, in ascending order.
use lemuel_quant_core.Base.{
  ◌≡◌, refl, ap, ◌∙◌, Bool, true, false, ◌||◌, Bool-cases, inl, inr, Option, none, some, List, [],
  ◌∷◌, arith, if◌then◌else◌,
}
use lemuel_quant_core.Base.Bytes.{Bytes, bytes_eq, bytes_eq_iff}
use lemuel_quant_core.Dwh.{Row}
use lemuel_quant_core.Dwh.Writer.{bytes_lt, value_at, insert_key, insert_keys, tag_keys, value_keys}

abbrev is_in : Bytes → List Bytes → Bool
is_in k [] = false
is_in k (x ∷ xs) = bytes_eq k x || is_in k xs

-- Each is below the next one, so that none is there twice.
abbrev Ascending : List Bytes → Type 0
Ascending [] = Unit
Ascending (x ∷ []) = Unit
Ascending (x ∷ y ∷ xs) = (bytes_lt x y ≡ true) × Ascending (y ∷ xs)

lt_total : (x y : Bytes) → bytes_lt x y ≡ false → bytes_eq x y ≡ false → bytes_lt y x ≡ true
lt_total [] [] l e = absurd cc
lt_total [] (d ∷ y) l e = absurd cc
lt_total (c ∷ x) [] l e = refl
lt_total (c ∷ x) (d ∷ y) l e = ground (arith, lt_total x y)

is_in-insert_key :
    (k x : Bytes) (xs : List Bytes) → is_in k (insert_key x xs) ≡ (bytes_eq k x || is_in k xs)
is_in-insert_key k x [] = refl
is_in-insert_key k x (y ∷ xs) = elim (Bool-cases (bytes_lt x y)) [
  | inl t ↦ rw t refl
  | inr f ↦ elim (Bool-cases (bytes_eq x y)) [
    | inl t ↦ let e : x ≡ y = (bytes_eq_iff x y).0 t in ground (arith, f, t, ap (bytes_eq k) e)
    | inr g ↦ ground (arith, f, g, is_in-insert_key k x xs)
  ]
]

Ascending-insert_key : (x : Bytes) (xs : List Bytes) → Ascending xs → Ascending (insert_key x xs)
Ascending-insert_key x [] h = tt
Ascending-insert_key x (y ∷ []) h = ground (arith, lt_total x y)
Ascending-insert_key x (y ∷ z ∷ xs) (l, h) =
    ground (arith, lt_total x y, lt_total x z, Ascending-insert_key x (z ∷ xs) h)

-- An ascending list of exactly the keys that pass a test.
abbrev pub IsKeySet : (Bytes → Bool) → List Bytes → Type 0
IsKeySet test keys = Ascending keys × ((k : Bytes) → is_in k keys ≡ test k)

or_false : (b : Bool) → (b || false) ≡ b
or_false true = refl
or_false false = refl

module _ {ℓ} {V : Type ℓ} where
  -- Is there a pair with the key?
  abbrev pub has_key : Bytes → List (Bytes × V) → Bool
  has_key k [] = false
  has_key k ((j, v) ∷ kvs) = bytes_eq k j || has_key k kvs

  -- The first value at a key.
  abbrev pub first_at : Bytes → List (Bytes × V) → Option V
  first_at k [] = none
  first_at k ((j, v) ∷ kvs) = let rest = first_at k kvs in if bytes_eq j k then some v else rest

  pub value_at-first_at : (k : Bytes) (kvs : List (Bytes × V)) → value_at k kvs ≡ first_at k kvs
  value_at-first_at k [] = refl
  value_at-first_at k ((j, v) ∷ kvs) = elim (Bool-cases (bytes_eq j k)) [
    | inl t ↦ rw t refl
    | inr f ↦ rw f (value_at-first_at k kvs)
  ]

  is_in-insert_keys :
      (k : Bytes) (kvs : List (Bytes × V)) (keys : List Bytes)
      → is_in k (insert_keys kvs keys) ≡ (has_key k kvs || is_in k keys)
  is_in-insert_keys k [] keys = refl
  is_in-insert_keys k ((j, v) ∷ kvs) keys =
      ground (arith, is_in-insert_keys k kvs (insert_key j keys), is_in-insert_key k j keys)

  Ascending-insert_keys :
      (kvs : List (Bytes × V)) (keys : List Bytes)
      → Ascending keys
      → Ascending (insert_keys kvs keys)
  Ascending-insert_keys [] keys h = h
  Ascending-insert_keys ((j, v) ∷ kvs) keys h =
      Ascending-insert_keys kvs (insert_key j keys) (Ascending-insert_key j keys h)

module _ {ℓ} {D : Type ℓ} where
  -- Does any row have a tag, or a value, with the key?
  abbrev pub any_tag : Bytes → List (Row D) → Bool
  any_tag k [] = false
  any_tag k (r ∷ rows) = has_key k r.tags || any_tag k rows

  abbrev pub any_value : Bytes → List (Row D) → Bool
  any_value k [] = false
  any_value k (r ∷ rows) = has_key k r.values || any_value k rows

  is_in-tag_keys :
      (k : Bytes) (rows : List (Row D)) (keys : List Bytes)
      → is_in k (tag_keys rows keys) ≡ (any_tag k rows || is_in k keys)
  is_in-tag_keys k [] keys = refl
  is_in-tag_keys k (r ∷ rows) keys =
      ground
        (arith, is_in-tag_keys k rows (insert_keys r.tags keys), is_in-insert_keys k r.tags keys)

  is_in-value_keys :
      (k : Bytes) (rows : List (Row D)) (keys : List Bytes)
      → is_in k (value_keys rows keys) ≡ (any_value k rows || is_in k keys)
  is_in-value_keys k [] keys = refl
  is_in-value_keys k (r ∷ rows) keys = ground (
    arith,
    is_in-value_keys k rows (insert_keys r.values keys),
    is_in-insert_keys k r.values keys,
  )

  Ascending-tag_keys :
      (rows : List (Row D)) (keys : List Bytes) → Ascending keys → Ascending (tag_keys rows keys)
  Ascending-tag_keys [] keys h = h
  Ascending-tag_keys (r ∷ rows) keys h =
      Ascending-tag_keys rows (insert_keys r.tags keys) (Ascending-insert_keys r.tags keys h)

  Ascending-value_keys :
      (rows : List (Row D)) (keys : List Bytes) → Ascending keys → Ascending (value_keys rows keys)
  Ascending-value_keys [] keys h = h
  Ascending-value_keys (r ∷ rows) keys h =
      Ascending-value_keys rows (insert_keys r.values keys) (Ascending-insert_keys r.values keys h)

  -- The two sets of the writer.
  pub tag_keys-IsKeySet : (rows : List (Row D)) → IsKeySet (λ k. any_tag k rows) (tag_keys rows [])
  tag_keys-IsKeySet rows =
      (Ascending-tag_keys rows [] tt, λ k. is_in-tag_keys k rows [] ∙ or_false (any_tag k rows))

  pub value_keys-IsKeySet :
      (rows : List (Row D)) → IsKeySet (λ k. any_value k rows) (value_keys rows [])
  value_keys-IsKeySet rows = (
    Ascending-value_keys rows [] tt,
    λ k. is_in-value_keys k rows [] ∙ or_false (any_value k rows),
  )
