-- ===== src/Dwh.antt =====
-- The data warehouse (modules/data-warehouse): its rows, the store, the rollup and the ingest of
-- published trades. A `double` is a type with the operations of Feed.Double.
pub mod Store
pub mod Rollup
pub mod Ingest
pub mod Writer
pub mod Loop
pub mod Subscriber
pub mod Settings
use lemuel_quant_core.Base.{ℕ, List}
use lemuel_quant_core.Base.Bytes.{Bytes}

-- `Row` of include/dwh/timeseries.hpp; a time stamp is taken from a clock after 1970.
pub record Row {ℓ} (D : Type ℓ) : Type ℓ where
  pub ts_ns : ℕ
  pub channel : Bytes
  pub tags : List (Bytes × Bytes)
  pub values : List (Bytes × D)
