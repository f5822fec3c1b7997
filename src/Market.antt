-- ===== src/Market.antt =====
-- The Binance feed (modules/market-feed): the subscription path, the frames and the publisher. The life
-- of its worker thread is that of Feed/Lifecycle.antt.
pub mod Streams
pub mod Publisher
pub mod Frames
pub mod Messages
pub mod Connection
pub mod Main
use lemuel_quant_core.Base.{ℕ, List}
use lemuel_quant_core.Base.Bytes.{Bytes}

-- What `BinanceClient::Options` subscribes to.
pub record Subscriptions : Type 0 where
  pub trade_symbols : List Bytes
  pub book_symbols : List Bytes
  pub book_depth : ℕ
