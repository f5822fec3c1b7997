-- ===== src/Dwh/Subscriber/Published.antt =====
-- From the two feeds through the subscriber and the store to a query
-- (modules/stock-feed/src/main.cpp, modules/market-feed/src/redis_publisher.cpp,
-- modules/data-warehouse/src/redis_subscriber.cpp, modules/data-warehouse/src/main.cpp, modules/data-warehouse/src/timeseries_store.cpp).
use lemuel_quant_core.Base.{
  ℕ, ◌≡◌, refl, ap, ◌∙◌, Bool, ◌&&◌, some, List, [], ◌∷◌, ◌++◌, map, All, if◌then◌else◌,
}
use lemuel_quant_core.Base.Bytes.{Bytes, lit}
use lemuel_quant_core.Base.Split.{Free}
use lemuel_quant_core.Feed.{Double, Trade}
use lemuel_quant_core.Stock.Supervise.{on_trade, is_side_buy}
use lemuel_quant_core.Dwh.{Row}
use lemuel_quant_core.Dwh.Ingest.Published.{Solid, published_row, on_message-on_trade}
use lemuel_quant_core.Dwh.Ingest.Binance.{on_message-publish_trade}
use lemuel_quant_core.Dwh.Ingest.{on_message}
use lemuel_quant_core.Market.Publisher.{publish_trade}
use lemuel_quant_core.Dwh.Store.{append, append_batch, query, keep, is_within}
use lemuel_quant_core.Dwh.Store.Arrivals.{is_on, query-append_batch}
use lemuel_quant_core.Dwh.Subscriber.{Reply, array, session}

pub data Source : Type 0 where
  kis binance : Source

-- What comes: the confirmation of a subscription, or a trade that a feed published.
pub data Arrival {ℓ} (D : Type ℓ) : Type ℓ where
  confirmed : Bytes → Bytes → Arrival D
  published : Bytes → ℕ → Source → Trade D → Arrival D

abbrev pub trades_in {ℓ} : {D : Type ℓ} → List (Arrival D) → List (Trade D)
trades_in [] = []
trades_in (confirmed pattern_text n ∷ arrivals) = trades_in arrivals
trades_in (published pattern_text now source t ∷ arrivals) = t ∷ trades_in arrivals

module _ {ℓ} {D : Type ℓ} ⦃d : Double D⦄ where
  open d use {stod, print}

  abbrev pub publication : Source → Trade D → Bytes × Bytes
  publication kis t = on_trade t
  publication binance t = publish_trade (lit "") t

  abbrev name_of : Source → Trade D → Bytes
  name_of kis t = lit "trade.kis." ++ t.symbol
  name_of binance t = lit "trade.binance." ++ t.symbol

  abbrev pub to_reply : Arrival D → ℕ × Reply
  to_reply (confirmed pattern_text n) = (0, array (lit "psubscribe" ∷ pattern_text ∷ n ∷ []))
  to_reply (published pattern_text now source t) = (
    now,
    array
        (lit "pmessage" ∷ pattern_text ∷ (publication source t).0 ∷ (publication source t).1 ∷ []),
  )

  -- The symbol holds no quote, and what is printed for the price and for the quantity is read as the
  -- number `rounded` of it.
  abbrev pub IsReadable : (D → D) → Trade D → Type ℓ
  IsReadable rounded t =
      Free 0x22 t.symbol
      × (stod (print t.price) ≡ some (rounded t.price))
      × (stod (print t.quantity) ≡ some (rounded t.quantity))

  module _ (rounded : D → D) (side_of : Bool → D) where
    abbrev row_of : ℕ → Source → Trade D → Row D
    row_of now source t =
        published_row now (name_of source t) t (rounded t.price) (rounded t.quantity)
          (side_of (is_side_buy t.side))

    -- A row for each published trade.
    abbrev pub rows_of : List (Arrival D) → List (Row D)
    rows_of [] = []
    rows_of (confirmed pattern_text n ∷ arrivals) = rows_of arrivals
    rows_of (published pattern_text now source t ∷ arrivals) =
        row_of now source t ∷ rows_of arrivals

    keep-trades :
        (from_ns to_ns : ℕ) (arrivals : List (Arrival D))
        → keep (λ r. is_on (lit "trade") r && is_within from_ns to_ns r) (rows_of arrivals)
          ≡ keep (is_within from_ns to_ns) (rows_of arrivals)
    keep-trades from_ns to_ns [] = refl
    keep-trades from_ns to_ns (confirmed pattern_text n ∷ arrivals) =
        keep-trades from_ns to_ns arrivals
    keep-trades from_ns to_ns (published pattern_text now source t ∷ arrivals) =
        rw (keep-trades from_ns to_ns arrivals) refl

    module _ (reads_side : (b : Bool) → stod (if b then lit "1" else lit "2") ≡ some (side_of b))
        (solid : (x : D) → Solid (print x)) where
      on_message-publication :
          (now : ℕ) (source : Source) (t : Trade D) (store : List (Bytes × List (Row D)))
          → IsReadable rounded t
          → on_message now (publication source t) store ≡ some (append (row_of now source t) store)
      on_message-publication now kis t store (f, price, quantity) =
          on_message-on_trade now t store (rounded t.price) (rounded t.quantity)
            (side_of (is_side_buy t.side)) solid f price quantity (reads_side (is_side_buy t.side))
      on_message-publication now binance t store (f, price, quantity) =
          on_message-publish_trade now t store (rounded t.price) (rounded t.quantity)
            (side_of (is_side_buy t.side)) solid f price quantity (reads_side (is_side_buy t.side))

      session-append_batch :
          (arrivals : List (Arrival D)) (store : List (Bytes × List (Row D)))
          → All (IsReadable rounded) (trades_in arrivals)
          → session (map to_reply arrivals) store ≡ some (append_batch (rows_of arrivals) store)
      unfolding session append_batch
      session-append_batch [] store h = refl
      session-append_batch (confirmed pattern_text n ∷ arrivals) store h =
          session-append_batch arrivals store h
      session-append_batch (published pattern_text now source t ∷ arrivals) store (f, h) =
          let one = on_message-publication now source t store f in
          rw one (session-append_batch arrivals (append (row_of now source t) store) h)

      -- If the numbers of the trades are read as the numbers `rounded` of them, no printed number holds a
      -- blank, a quote, a comma or a brace, and no symbol holds a quote: over a connection that brings
      -- confirmations and published trades, the warehouse throws nothing, and a query of the trades sorts
      -- exactly one row for each published trade of either feed that came within the interval, with its
      -- symbol and side, and its price and quantity rounded.
      pub session-query :
          (sort : List (Row D) → List (Row D)) (arrivals : List (Arrival D)) (from_ns to_ns : ℕ)
          → All (IsReadable rounded) (trades_in arrivals)
          → (m : List (Bytes × List (Row D))) × (session (map to_reply arrivals) [] ≡ some m)
            × (query sort m (lit "trade") from_ns to_ns
                ≡ sort (keep (is_within from_ns to_ns) (rows_of arrivals)))
      session-query sort arrivals from_ns to_ns h = (
        append_batch (rows_of arrivals) [],
        session-append_batch arrivals [] h,
        query-append_batch sort (rows_of arrivals) (lit "trade") from_ns to_ns
            ∙ ap sort (keep-trades from_ns to_ns arrivals),
      )
