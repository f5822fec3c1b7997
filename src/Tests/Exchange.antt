-- ===== src/Tests/Exchange.antt =====
-- A frame of Binance on its way to the warehouse.
use lemuel_quant_core.Base.{ℕ, ◌*◌, ◌≡◌, refl, true, some, List, [], ◌∷◌, map, All}
use lemuel_quant_core.Base.Bytes.{Bytes, lit, decimal}
use lemuel_quant_core.Base.Find.{is_free→Free}
use lemuel_quant_core.Market.Connection.{Peer, run_round}
use lemuel_quant_core.Market.Connection.Trades.{Message, to_frame}
use lemuel_quant_core.Market.Messages.{parse_trade}
use lemuel_quant_core.Market.Main.{options, published_by}
use lemuel_quant_core.Dwh.{Row}
use lemuel_quant_core.Dwh.Store.{query, keep, is_within}
use lemuel_quant_core.Dwh.Subscriber.{session}
use lemuel_quant_core.Dwh.Subscriber.Published.{binance, IsReadable, rows_of}
use lemuel_quant_core.Dwh.Subscriber.Delivered.{delivered, arrivals_of}
use lemuel_quant_core.Dwh.Subscriber.Exchange.{trades_up_to, run_round-query}
use lemuel_quant_core.Tests.{whole_double, stod-print}
use lemuel_quant_core.Tests.Storing.{one_or_two, reads_side, print-Solid, sort_rows}
use lemuel_quant_core.Tests.Trading.{inner, message, stoll, sound}

abbrev only : List Message
only = record { now = 9; symbol = lit "btcusdt"; body = lit "1{2}" } ∷ []

abbrev whole_peer : Peer ℕ
whole_peer = record {
  is_connected = λ host port. true;
  is_accepted = λ target. true;
  frames = map to_frame only;
  fields = λ payload. message;
}

-- The one frame gives a trade of `btcusdt`.
readable : All (IsReadable (λ x. x)) (trades_up_to stoll whole_peer only)
unfolding parse_trade whole_double decimal
readable = ((is_free→Free 0x22 (lit "btcusdt") refl, stod-print 70, stod-print 0), tt)

run_round-query_example :
    (m : List (Bytes × List (Row ℕ))) × (session
        (delivered
          (λ i. 100 * i)
          (lit "trade.binance.*")
          0
          (published_by (run_round stoll whole_peer true true options)))
        []
      ≡ some m)
    × (query sort_rows m (lit "trade") 0 50
        ≡ sort_rows (
            keep (is_within 0 50) (
              rows_of
                (λ x. x)
                one_or_two
                (arrivals_of binance
                  (λ i. 100 * i)
                  (lit "trade.binance.*")
                  0
                  (trades_up_to stoll whole_peer only)))))
run_round-query_example =
    run_round-query (λ x. x) one_or_two reads_side print-Solid stoll whole_peer true options only
      (λ i. 100 * i) (lit "trade.binance.*") sort_rows 0 50 (sound (lit "1{2}") inner, tt) refl refl
      refl readable
