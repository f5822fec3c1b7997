-- ===== src/Dwh/Store/Arrivals.antt =====
-- The map of the store against the list of the rows in their order of arrival
-- (modules/data-warehouse/src/timeseries_store.cpp).
use lemuel_quant_core.Base.{
  ℕ, ◌≡◌, refl, ◌∙◌, ap, Bool, ◌&&◌, List, [], ◌∷◌, ◌++◌, arith, length, ◌+◌, append_assoc,
  append-nil,
}
use lemuel_quant_core.Base.Bytes.{Bytes, bytes_eq}
use lemuel_quant_core.Base.Maps.{list_at, list_at-push_at}
use lemuel_quant_core.Dwh.{Row}
use lemuel_quant_core.Dwh.Store.{append, append_batch, is_within, keep, query}

module _ {ℓ} {D : Type ℓ} where
  abbrev pub is_on : Bytes → Row D → Bool
  is_on c r = bytes_eq r.channel c

  -- How many rows pass a test.
  abbrev pub count : (Row D → Bool) → List (Row D) → ℕ
  count p rows = length (keep p rows)

  pub count-append :
      (p : Row D → Bool) (xs ys : List (Row D)) → count p (xs ++ ys) ≡ count p xs + count p ys
  count-append p [] ys = omega arith
  count-append p (x ∷ xs) ys = ground (arith, count-append p xs ys)

  keep-cons :
      (p : Row D → Bool) (r : Row D) (rows : List (Row D))
      → keep p (r ∷ rows) ≡ keep p (r ∷ []) ++ keep p rows
  keep-cons p r rows = ground arith

  list_at-append_batch :
      (c : Bytes) (rows : List (Row D)) (m : List (Bytes × List (Row D)))
      → list_at c (append_batch rows m) ≡ list_at c m ++ keep (is_on c) rows
  unfolding append_batch append
  list_at-append_batch c [] m = ground (arith, append-nil (list_at c m))
  list_at-append_batch c (r ∷ rows) m =
      list_at-append_batch c rows (append r m)
      ∙ ap (λ l. l ++ keep (is_on c) rows) (list_at-push_at c r.channel r m)
      ∙ append_assoc (list_at c m) (keep (is_on c) (r ∷ [])) (keep (is_on c) rows)
      ∙ ap (λ l. list_at c m ++ l) (ground (arith, keep-cons (is_on c) r rows))

  pub keep-keep :
      (p q : Row D → Bool) (rows : List (Row D))
      → keep p (keep q rows) ≡ keep (λ r. q r && p r) rows
  keep-keep p q [] = refl
  keep-keep p q (r ∷ rows) = ground (arith, keep-keep p q rows)

  -- After the rows have been appended to the empty store in some order, a query sorts exactly those of
  -- them that are on its channel and not outside its closed interval, taken in that order.
  pub query-append_batch :
      (sort : List (Row D) → List (Row D)) (rows : List (Row D)) (c : Bytes) (from_ns to_ns : ℕ)
      → query sort (append_batch rows []) c from_ns to_ns
        ≡ sort (keep (λ r. is_on c r && is_within from_ns to_ns r) rows)
  unfolding query
  query-append_batch sort rows c from_ns to_ns = ap sort (
      ap (keep (is_within from_ns to_ns)) (list_at-append_batch c rows [])
      ∙ keep-keep (is_within from_ns to_ns) (is_on c) rows)
