-- ===== src/Base/Maps.antt =====
-- A `std::map` or `std::unordered_map` from text to lists, as an association list whose order nothing
-- shows (modules/data-warehouse/src/timeseries_store.cpp, modules/news-pipeline/src/news_score.cpp).
use mathlib.Core.List.{List, [], ◌∷◌, ◌++◌, append-nil}
use mathlib.Core.Path.{◌≡◌}
use native.Mathlib.Omega.{arith}
use lemuel_quant_core.Base.Bytes.{Bytes, bytes_eq, bytes_eq_iff}
use lemuel_quant_core.Base.Tests.{if◌then◌else◌}

module _ {ℓ} {A : Type ℓ} where
  -- `m[key].push_back(x)`
  abbrev pub push_at : Bytes → A → List (Bytes × List A) → List (Bytes × List A)
  push_at key x [] = (key, x ∷ []) ∷ []
  push_at key x ((k, xs) ∷ m) =
      let rest = push_at key x m in if bytes_eq k key then (k, xs ++ x ∷ []) ∷ m else (k, xs) ∷ rest

  -- The list at a key, empty if there is none.
  abbrev pub list_at : Bytes → List (Bytes × List A) → List A
  list_at key [] = []
  list_at key ((k, xs) ∷ m) = if bytes_eq k key then xs else list_at key m

  -- A change of the list at a key that is there.
  abbrev pub change_at : Bytes → (List A → List A) → List (Bytes × List A) → List (Bytes × List A)
  change_at key f [] = []
  change_at key f ((k, xs) ∷ m) =
      let rest = change_at key f m in if bytes_eq k key then (k, f xs) ∷ m else (k, xs) ∷ rest

  pub list_at-push_at :
      (c key : Bytes) (x : A) (m : List (Bytes × List A))
      → list_at c (push_at key x m) ≡ list_at c m ++ (if bytes_eq key c then x ∷ [] else [])
  list_at-push_at c key x [] = ground arith
  list_at-push_at c key x ((k, xs) ∷ m) = ground (
    arith,
    list_at-push_at c key x m,
    bytes_eq_iff k c,
    bytes_eq_iff k key,
    bytes_eq_iff key c,
    append-nil xs,
    append-nil (list_at c m),
  )

  pub list_at-change_at :
      (c key : Bytes) (f : List A → List A) (m : List (Bytes × List A))
      → f [] ≡ []
      → list_at c (change_at key f m) ≡ (if bytes_eq key c then f (list_at c m) else list_at c m)
  list_at-change_at c key f [] h = ground arith
  list_at-change_at c key f ((k, xs) ∷ m) h = ground (
    arith,
    list_at-change_at c key f m h,
    bytes_eq_iff k c,
    bytes_eq_iff k key,
    bytes_eq_iff key c,
  )
