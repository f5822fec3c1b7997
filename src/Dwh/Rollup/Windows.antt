-- ===== src/Dwh/Rollup/Windows.antt =====
-- Consecutive rollups and the rows on their common bound (modules/data-warehouse/src/rollup.cpp).
use lemuel_quant_core.Base.{ℕ, ◌+◌, ◌≤◌, ◌≡◌, ◌==◌, ◌&&◌, Bool, List, [], ◌∷◌, arith}
use lemuel_quant_core.Base.Bytes.{Bytes}
use lemuel_quant_core.Base.Maps.{list_at}
use lemuel_quant_core.Dwh.{Row}
use lemuel_quant_core.Dwh.Store.{query, keep, is_within}
use lemuel_quant_core.Dwh.Store.Arrivals.{count, count-append}
use lemuel_quant_core.Dwh.Rollup.{rollup_once, collect, channels}

module _ {ℓ} {D : Type ℓ} where
  -- A row that passes the test and stands on the bound.
  abbrev pub is_on_bound : (Row D → Bool) → ℕ → Row D → Bool
  is_on_bound p mid r = p r && (r.ts_ns == mid)

  -- On a bound that two closed intervals share, a row counts twice.
  count-windows :
      (p : Row D → Bool) (since mid until : ℕ)
      → since ≤ mid
      → mid ≤ until
      → (rows : List (Row D))
      → count p (keep (is_within since mid) rows) + count p (keep (is_within mid until) rows)
        ≡ count p (keep (is_within since until) rows)
          + count (is_on_bound p mid) (keep (is_within since until) rows)
  count-windows p since mid until h1 h2 [] = omega arith
  count-windows p since mid until h1 h2 (r ∷ rows) =
      ground (arith, count-windows p since mid until h1 h2 rows)

module _ {ℓ} {D : Type ℓ} (sort : List (Row D) → List (Row D))
    (keeps : (p : Row D → Bool) (rows : List (Row D)) → count p (sort rows) ≡ count p rows)
    (m : List (Bytes × List (Row D))) (p : Row D → Bool) (since mid until : ℕ) (h1 : since ≤ mid)
    (h2 : mid ≤ until) where
  query-windows :
      (c : Bytes)
      → count p (query sort m c since mid) + count p (query sort m c mid until)
        ≡ count p (query sort m c since until)
          + count (is_on_bound p mid) (query sort m c since until)
  unfolding query
  query-windows c = omega (
    arith,
    keeps p (keep (is_within since mid) (list_at c m)),
    keeps p (keep (is_within mid until) (list_at c m)),
    keeps p (keep (is_within since until) (list_at c m)),
    keeps (is_on_bound p mid) (keep (is_within since until) (list_at c m)),
    count-windows p since mid until h1 h2 (list_at c m),
  )

  collect-windows :
      (cs : List Bytes)
      → count p (collect sort m cs since mid) + count p (collect sort m cs mid until)
        ≡ count p (collect sort m cs since until)
          + count (is_on_bound p mid) (collect sort m cs since until)
  collect-windows [] = omega arith
  collect-windows (c ∷ cs) = omega (
    arith,
    query-windows c,
    collect-windows cs,
    count-append p (query sort m c since mid) (collect sort m cs since mid),
    count-append p (query sort m c mid until) (collect sort m cs mid until),
    count-append p (query sort m c since until) (collect sort m cs since until),
    count-append (is_on_bound p mid) (query sort m c since until) (collect sort m cs since until),
  )

  -- If the sort neither loses nor repeats rows, two consecutive rollups over the same store write, for
  -- every test on rows, as many rows that pass it as one rollup over both windows, and once more those
  -- that stand on the common bound.
  pub rollup_once-windows :
      count p (rollup_once sort m since mid) + count p (rollup_once sort m mid until)
      ≡ count p (rollup_once sort m since until)
        + count (is_on_bound p mid) (rollup_once sort m since until)
  unfolding rollup_once
  rollup_once-windows = collect-windows channels
