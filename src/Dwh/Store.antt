-- ===== src/Dwh/Store.antt =====
-- `InMemoryStore` (modules/data-warehouse/src/timeseries_store.cpp). The map of channels is an
-- association list; `std::sort` by time stamp is an argument of `query`.
pub mod Arrivals
pub mod Bags
use lemuel_quant_core.Base.{ℕ, Bool, ◌&&◌, List, [], ◌∷◌, ◌++◌, leb, if◌then◌else◌}
use lemuel_quant_core.Base.Bytes.{Bytes, bytes_eq}
use lemuel_quant_core.Base.Maps.{push_at, list_at}
use lemuel_quant_core.Dwh.{Row}

module _ {ℓ} {D : Type ℓ} where
  -- `by_channel_[r.channel].push_back(r)`
  unfoldable pub append : Row D → List (Bytes × List (Row D)) → List (Bytes × List (Row D))
  append r m = push_at r.channel r m

  unfoldable pub append_batch :
      List (Row D) → List (Bytes × List (Row D)) → List (Bytes × List (Row D))
  unfolding append
  append_batch [] m = m
  append_batch (r ∷ rows) m = append_batch rows (append r m)

  -- Is the time stamp in the closed interval?
  abbrev pub is_within : ℕ → ℕ → Row D → Bool
  is_within from_ns to_ns r = leb from_ns r.ts_ns && leb r.ts_ns to_ns

  abbrev pub keep : (Row D → Bool) → List (Row D) → List (Row D)
  keep p [] = []
  keep p (r ∷ rows) = if p r then r ∷ keep p rows else keep p rows

  unfoldable pub query :
      (List (Row D) → List (Row D)) → List (Bytes × List (Row D)) → Bytes → ℕ → ℕ → List (Row D)
  query sort m channel from_ns to_ns = sort (keep (is_within from_ns to_ns) (list_at channel m))
