-- ===== src/Feed.antt =====
-- What the feeds share: the records of shared/include/lqc/feed_core.hpp, `double` as a type with the
-- operations that the feeds use, and the life of a client's worker thread.
pub mod Lifecycle
pub mod Reading
pub mod Threads
pub mod Redis
use lemuel_quant_core.Base.{ℕ, Bool, Option, List}
use lemuel_quant_core.Base.Bytes.{Bytes}

-- What the feeds do with a `double`: the constant 0.0, the test `> 0`, `std::stod`, which is `none`
-- where it throws, and `operator<<`.
pub record Double {ℓ} (D : Type ℓ) : Type ℓ where
  pub nought : D
  pub is_positive : D → Bool
  pub stod : Bytes → Option D
  pub print : D → Bytes

pub data Side : Type 0 where
  buy sell : Side

pub record Trade {ℓ} (D : Type ℓ) : Type ℓ where
  pub symbol : Bytes
  pub price : D
  pub quantity : D
  pub side : Side
  pub exchange_ts_ns : ℕ
  pub local_ts_ns : ℕ
  pub trade_id : Bytes

pub record PriceLevel {ℓ} (D : Type ℓ) : Type ℓ where
  pub price : D
  pub quantity : D

pub record OrderBook {ℓ} (D : Type ℓ) : Type ℓ where
  pub symbol : Bytes
  pub bids : List (PriceLevel D)
  pub asks : List (PriceLevel D)
  pub exchange_ts_ns : ℕ
  pub local_ts_ns : ℕ
