-- ===== src/Tests/Broker.antt =====
-- A frame of KIS on its way to the warehouse.
use lemuel_quant_core.Base.{ℕ, ◌*◌, ◌≡◌, refl, true, false, some, List, [], ◌∷◌, All}
use lemuel_quant_core.Base.Bytes.{Bytes, lit}
use lemuel_quant_core.Base.Find.{is_free→Free}
use lemuel_quant_core.Stock.Kis.{authenticate}
use lemuel_quant_core.Stock.Kis.Connection.{run_round}
use lemuel_quant_core.Stock.Main.{published_by}
use lemuel_quant_core.Dwh.{Row}
use lemuel_quant_core.Dwh.Store.{query, keep, is_within}
use lemuel_quant_core.Dwh.Subscriber.{session}
use lemuel_quant_core.Dwh.Subscriber.Published.{kis, IsReadable, rows_of}
use lemuel_quant_core.Dwh.Subscriber.Delivered.{delivered, arrivals_of}
use lemuel_quant_core.Dwh.Subscriber.Broker.{trades_up_to, run_round-rows_of}
use lemuel_quant_core.Tests.{whole_double, stod-print}
use lemuel_quant_core.Tests.Feeding.{kis_sent, kis_sent-IsMessage, kis_peer, kis_credentials}
use lemuel_quant_core.Tests.Storing.{one_or_two, reads_side, print-Solid, sort_rows}

-- The frames give one trade, of 005930.
readable : All (IsReadable (λ x. x)) (trades_up_to {D = ℕ} kis_sent)
unfolding whole_double
readable = ((is_free→Free 0x22 (lit "005930") refl, stod-print 70000, stod-print 0), tt)

run_round-rows_of_example :
    (m : List (Bytes × List (Row ℕ))) × (session
        (delivered
          (λ i. 100 * i)
          (lit "trade.kis.*")
          0
          (published_by
            (run_round {D = ℕ} true false kis_credentials (lit "005930" ∷ []) [] kis_peer)))
        []
      ≡ some m)
    × (query sort_rows m (lit "trade") 0 50
        ≡ sort_rows (
            keep (is_within 0 50) (
              rows_of
                (λ x. x)
                one_or_two
                (arrivals_of kis (λ i. 100 * i) (lit "trade.kis.*") 0 (trades_up_to kis_sent)))))
unfolding authenticate
run_round-rows_of_example =
    run_round-rows_of (λ x. x) one_or_two reads_side print-Solid false kis_credentials
      (lit "005930" ∷ []) [] kis_peer kis_sent (λ i. 100 * i) (lit "trade.kis.*") sort_rows 0 50
      kis_sent-IsMessage refl refl refl readable
