-- ===== src/Dwh/Subscriber/Broker.antt =====
-- From the frames of KIS to a query of the warehouse (modules/stock-feed/src/kis_client.cpp,
-- modules/stock-feed/src/main.cpp, modules/data-warehouse/src/redis_subscriber.cpp,
-- modules/data-warehouse/src/main.cpp, modules/data-warehouse/src/timeseries_store.cpp).
use lemuel_quant_core.Base.{
  ℕ, ◌≡◌, refl, ap, ◌∙◌, Bool, true, false, some, List, [], ◌∷◌, ◌++◌, map, All, ◌&&◌, leb,
  if◌then◌else◌,
}
use lemuel_quant_core.Base.Bytes.{Bytes, lit, is_empty}
use lemuel_quant_core.Feed.{Double, Trade}
use lemuel_quant_core.Feed.Reading.{
  Outcome, ignored, traded, booked, thrown, until_thrown, trades_of, IsBookless,
  as_trade-IsBookless,
}
use lemuel_quant_core.Stock.Kis.{Credentials, authenticate, send_sub, trade_of_fields}
use lemuel_quant_core.Stock.Kis.Connection.{
  Peer, Action, opened, sent, called, post_all, approval_key, ws_port, run_round,
}
use lemuel_quant_core.Stock.Kis.Connection.Trades.{
  Message, answer, trade, IsMessage, to_frame, read_message, round_of, run_round-round_of,
}
use lemuel_quant_core.Stock.Supervise.{on_trade}
use lemuel_quant_core.Stock.Main.{published_by}
use lemuel_quant_core.Dwh.{Row}
use lemuel_quant_core.Dwh.Ingest.Published.{Solid}
use lemuel_quant_core.Dwh.Store.{query, keep}
use lemuel_quant_core.Dwh.Subscriber.{session}
use lemuel_quant_core.Dwh.Subscriber.Published.{kis, rows_of, IsReadable}
use lemuel_quant_core.Dwh.Subscriber.Delivered.{delivered, arrivals_of, delivered-query}

module _ {ℓ} {D : Type ℓ} ⦃d : Double D⦄ where
  published_by-called :
      (os : List (Outcome D))
      → All IsBookless os
      → published_by (map called (until_thrown os)) ≡ map on_trade (trades_of (until_thrown os))
  unfolding published_by
  published_by-called [] h = refl
  published_by-called (ignored ∷ os) (_, h) = published_by-called os h
  published_by-called (traded t ∷ os) (_, h) = ap (◌∷◌ (on_trade t)) (published_by-called os h)
  published_by-called (booked b ∷ os) (v, h) = elim v [ ]
  published_by-called (thrown ∷ os) h = refl

  -- The requests and the subscriptions publish nothing.
  published_by-sent :
      (texts : List Bytes) (actions : List (Action D))
      → published_by (map sent texts ++ actions) ≡ published_by actions
  unfolding published_by
  published_by-sent [] actions = refl
  published_by-sent (text ∷ texts) actions = published_by-sent texts actions

  published_by-post_all :
      (requests : List (Bytes × Bytes)) (actions : List (Action D))
      → published_by (post_all requests ++ actions) ≡ published_by actions
  unfolding published_by
  published_by-post_all [] actions = refl
  published_by-post_all ((url, body) ∷ requests) actions = published_by-post_all requests actions

  published_by-round_of :
      (creds : Credentials) (trade_symbols book_symbols : List Bytes) (peer : Peer)
      (os : List (Outcome D))
      → published_by (round_of creds trade_symbols book_symbols peer os)
        ≡ published_by (map called os)
  unfolding published_by
  published_by-round_of creds trade_symbols book_symbols peer os =
      let key = approval_key peer (authenticate creds) in
      let texts =
        map (send_sub key (lit "H0STCNT0")) trade_symbols
        ++ map (send_sub key (lit "H0STASP0")) book_symbols in
      published_by-post_all (authenticate creds)
        (opened (lit "ops.koreainvestment.com") (ws_port creds) ∷ (map sent texts ++ map called os))
      ∙ published_by-sent texts (map called os)

  -- The trades up to the first frame that cannot be read.
  abbrev pub trades_up_to : List Message → List (Trade D)
  trades_up_to ms = trades_of (until_thrown (map read_message ms))

module _ {ℓ} (D : Type ℓ) ⦃d : Double D⦄ where
  read_message-IsBookless : (ms : List Message) → All IsBookless (map (read_message {D = D}) ms)
  read_message-IsBookless [] = tt
  read_message-IsBookless (answer now text ∷ ms) = (tt, read_message-IsBookless ms)
  read_message-IsBookless (trade now flag count symbol field fields ∷ ms) = (
    as_trade-IsBookless (trade_of_fields now symbol (symbol ∷ field ∷ fields)),
    read_message-IsBookless ms,
  )

  published_by-run_round :
      (on_book : Bool) (creds : Credentials) (trade_symbols book_symbols : List Bytes) (peer : Peer)
      (ms : List Message)
      → All IsMessage ms
      → peer.frames ≡ map to_frame ms
      → peer.is_connected ≡ true
      → is_empty (approval_key peer (authenticate creds)) ≡ false
      → published_by (run_round {D = D} true on_book creds trade_symbols book_symbols peer)
        ≡ map on_trade (trades_up_to {D = D} ms)
  published_by-run_round on_book creds trade_symbols book_symbols peer ms h e c k =
      ap published_by (run_round-round_of on_book creds trade_symbols book_symbols peer ms h e c k)
      ∙ published_by-round_of creds trade_symbols book_symbols peer
          (until_thrown (map read_message ms))
      ∙ published_by-called (map read_message ms) (read_message-IsBookless ms)

module _ {ℓ} {D : Type ℓ} ⦃d : Double D⦄ where
  open d use {stod, print}

  module _ (rounded : D → D) (side_of : Bool → D)
      (reads_side : (b : Bool) → stod (if b then lit "1" else lit "2") ≡ some (side_of b))
      (solid : (x : D) → Solid (print x)) where
    -- If the server gives an approval key, takes the connection and sends answers and trades whose fields
    -- hold no delimiter, no symbol of a trade holds a quote, the price and the quantity of each trade are
    -- printed as texts that are read as the numbers `rounded` of them, and Redis hands on what is published:
    -- the warehouse throws nothing, and a query of the trades sorts exactly one row for each trade that came
    -- before the first frame that cannot be read and that reached the warehouse within the interval, with
    -- the symbol and the side of its frame, and its price and quantity rounded.
    pub run_round-rows_of :
        (on_book : Bool) (creds : Credentials) (trade_symbols book_symbols : List Bytes)
        (peer : Peer) (ms : List Message) (clock : ℕ → ℕ) (pattern_text : Bytes)
        (sort : List (Row D) → List (Row D)) (from_ns to_ns : ℕ)
        → All IsMessage ms
        → peer.frames ≡ map to_frame ms
        → peer.is_connected ≡ true
        → is_empty (approval_key peer (authenticate creds)) ≡ false
        → All (IsReadable rounded) (trades_up_to {D = D} ms)
        → (m : List (Bytes × List (Row D))) × (session
              (delivered clock pattern_text 0 (
                published_by
                  (run_round {D = D} true on_book creds trade_symbols book_symbols peer)))
              []
            ≡ some m)
          × (query sort m (lit "trade") from_ns to_ns
              ≡ sort (
                  keep
                    (λ r. leb from_ns r.ts_ns && leb r.ts_ns to_ns)
                    (rows_of rounded side_of
                      (arrivals_of kis clock pattern_text 0 (trades_up_to ms)))))
    run_round-rows_of on_book creds trade_symbols book_symbols peer ms clock pattern_text sort
          from_ns to_ns h e c k q =
        delivered-query rounded side_of reads_side solid kis clock pattern_text
          (published_by (run_round true on_book creds trade_symbols book_symbols peer))
          (trades_up_to {D = D} ms) sort from_ns to_ns
          (published_by-run_round D on_book creds trade_symbols book_symbols peer ms h e c k) q
