-- ===== src/Dwh/Subscriber/Exchange.antt =====
-- From the frames of Binance to a query of the warehouse (modules/market-feed/src/binance_client.cpp,
-- modules/market-feed/src/main.cpp, modules/data-warehouse/src/redis_subscriber.cpp,
-- modules/data-warehouse/src/main.cpp, modules/data-warehouse/src/timeseries_store.cpp).
use lemuel_quant_core.Base.{
  ℕ, ◌≡◌, refl, ap, ◌∙◌, Bool, true, Option, some, List, [], ◌∷◌, ◌++◌, map, All, ◌&&◌, leb,
  if◌then◌else◌,
}
use lemuel_quant_core.Base.Bytes.{Bytes, lit}
use lemuel_quant_core.Feed.{Double, Trade}
use lemuel_quant_core.Feed.Reading.{
  Outcome, ignored, traded, booked, thrown, until_thrown, trades_of, IsBookless,
  as_trade-IsBookless,
}
use lemuel_quant_core.Market.Connection.{Options, Peer, called, run_round}
use lemuel_quant_core.Market.Connection.Trades.{
  Message, IsMessage, to_frame, read_message, run_round-messages,
}
use lemuel_quant_core.Market.Messages.{parse_trade}
use lemuel_quant_core.Market.Publisher.{publish_trade}
use lemuel_quant_core.Market.Main.{published_by}
use lemuel_quant_core.Market.Streams.{path}
use lemuel_quant_core.Dwh.{Row}
use lemuel_quant_core.Dwh.Ingest.Published.{Solid}
use lemuel_quant_core.Dwh.Store.{query, keep}
use lemuel_quant_core.Dwh.Subscriber.{session}
use lemuel_quant_core.Dwh.Subscriber.Published.{binance, rows_of, IsReadable}
use lemuel_quant_core.Dwh.Subscriber.Delivered.{delivered, arrivals_of, delivered-query}

module _ {ℓ} {D : Type ℓ} ⦃d : Double D⦄ where
  open d use {stod, print}

  published_by-called :
      (os : List (Outcome D))
      → All IsBookless os
      → published_by (map called (until_thrown os))
        ≡ map (publish_trade []) (trades_of (until_thrown os))
  unfolding published_by
  published_by-called [] h = refl
  published_by-called (ignored ∷ os) (_, h) = published_by-called os h
  published_by-called (traded t ∷ os) (_, h) =
      ap (◌∷◌ (publish_trade [] t)) (published_by-called os h)
  published_by-called (booked b ∷ os) (v, h) = elim v [ ]
  published_by-called (thrown ∷ os) h = refl

  module _ (stoll : Bytes → Option ℕ) (peer : Peer D) where
    read_message-IsBookless :
        (ms : List Message) → All IsBookless (map (read_message stoll peer) ms)
    read_message-IsBookless [] = tt
    read_message-IsBookless (m ∷ ms) =
        let fields = peer.fields (b'{' ∷ (m.body ++ lit "}")) in
        (as_trade-IsBookless (parse_trade stoll m.now fields m.symbol), read_message-IsBookless ms)

    -- The trades up to the first frame whose fields cannot be read.
    abbrev pub trades_up_to : List Message → List (Trade D)
    trades_up_to ms = trades_of (until_thrown (map (read_message stoll peer) ms))

    published_by-run_round :
        (on_book : Bool) (options : Options) (ms : List Message)
        → All IsMessage ms
        → peer.frames ≡ map to_frame ms
        → peer.is_connected options.host options.port ≡ true
        → peer.is_accepted (path options.subscriptions) ≡ true
        → published_by (run_round stoll peer true on_book options)
          ≡ map (publish_trade []) (trades_up_to ms)
    unfolding published_by
    published_by-run_round on_book options ms h e c a =
        ap published_by (run_round-messages stoll peer on_book options ms h e c a)
        ∙ published_by-called (map (read_message stoll peer) ms) (read_message-IsBookless ms)

  module _ (rounded : D → D) (side_of : Bool → D)
      (reads_side : (b : Bool) → stod (if b then lit "1" else lit "2") ≡ some (side_of b))
      (solid : (x : D) → Solid (print x)) where
    -- If the exchange takes the connection and sends trades whose braces match, no symbol holds a quote or
    -- an `@`, the price and the quantity of each trade are printed as texts that are read as the numbers
    -- `rounded` of them, and Redis hands on what is published: the warehouse throws nothing, and a query of
    -- the trades sorts exactly one row for each trade that came before the first frame whose fields cannot
    -- be read and that reached the warehouse within the interval, with the symbol and the side that the
    -- fields of its frame give, and their price and quantity rounded.
    pub run_round-query :
        (stoll : Bytes → Option ℕ) (peer : Peer D) (on_book : Bool) (options : Options)
        (ms : List Message) (clock : ℕ → ℕ) (pattern_text : Bytes)
        (sort : List (Row D) → List (Row D)) (from_ns to_ns : ℕ)
        → All IsMessage ms
        → peer.frames ≡ map to_frame ms
        → peer.is_connected options.host options.port ≡ true
        → peer.is_accepted (path options.subscriptions) ≡ true
        → All (IsReadable rounded) (trades_up_to stoll peer ms)
        → (m : List (Bytes × List (Row D))) × (session
              (delivered clock pattern_text 0
                (published_by (run_round stoll peer true on_book options)))
              []
            ≡ some m)
          × (query sort m (lit "trade") from_ns to_ns
              ≡ sort (
                  keep
                    (λ r. leb from_ns r.ts_ns && leb r.ts_ns to_ns)
                    (rows_of rounded side_of
                      (arrivals_of binance clock pattern_text 0 (trades_up_to stoll peer ms)))))
    run_round-query stoll peer on_book options ms clock pattern_text sort from_ns to_ns h e c a q =
        delivered-query rounded side_of reads_side solid binance clock pattern_text
          (published_by (run_round stoll peer true on_book options)) (trades_up_to stoll peer ms)
          sort from_ns to_ns (published_by-run_round stoll peer on_book options ms h e c a) q
