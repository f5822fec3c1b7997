-- ===== src/Dwh/Ingest/Binance.antt =====
-- What the warehouse reads of a trade that the market feed publishes:
-- modules/market-feed/src/redis_publisher.cpp and modules/data-warehouse/src/main.cpp.
use lemuel_quant_core.Base.{◌≡◌, refl, some, ℕ, List, ◌++◌, if◌then◌else◌}
use lemuel_quant_core.Base.Bytes.{Bytes, lit}
use lemuel_quant_core.Base.Split.{Free}
use lemuel_quant_core.Feed.{Double, Trade}
use lemuel_quant_core.Stock.Supervise.{is_side_buy}
use lemuel_quant_core.Market.Publisher.{publish_trade}
use lemuel_quant_core.Dwh.{Row}
use lemuel_quant_core.Dwh.Store.{append}
use lemuel_quant_core.Dwh.Ingest.{on_message}
use lemuel_quant_core.Dwh.Ingest.Published.{Solid, published_row, trade_to_row-trade_text}

module _ {ℓ} {D : Type ℓ} ⦃d : Double D⦄ where
  open d use {print, stod}

  -- A trade that the market feed publishes without a prefix is read back by the warehouse as one of the
  -- stock feed is, whatever its number is: if the symbol has no quote, numbers are printed without blanks,
  -- quotes, commas and closing braces, and what is printed for the price, the quantity and the side is read
  -- as three numbers, then exactly one row with these is appended.
  pub on_message-publish_trade :
      (now : ℕ) (t : Trade D) (store : List (Bytes × List (Row D))) (price quantity side : D)
      → ((x : D) → Solid (print x))
      → Free 0x22 t.symbol
      → stod (print t.price) ≡ some price
      → stod (print t.quantity) ≡ some quantity
      → stod (if is_side_buy t.side then lit "1" else lit "2") ≡ some side
      → on_message now (publish_trade (lit "") t) store
        ≡ some (
            append
              (published_row now (lit "trade.binance." ++ t.symbol) t price quantity side)
              store)
  unfolding on_message publish_trade
  on_message-publish_trade now t store price quantity side solid f ep eq es =
      let tail = lit ",\"trade_id\":\"" ++ (t.trade_id ++ lit "\"}") in
      rw
        (trade_to_row-trade_text now (lit "trade.binance." ++ t.symbol) t tail price quantity side
          solid f ep eq es)
        refl
