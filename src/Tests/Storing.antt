-- ===== src/Tests/Storing.antt =====
-- The warehouse on three rows, with an insertion sort for `std::sort`.
use lemuel_quant_core.Base.{
  All, ℕ, ◌+◌, ◌≡◌, refl, ◌∙◌, Bool, true, false, some, List, [], ◌∷◌, ◌++◌, map, arith, leb,
  if◌then◌else◌,
}
use lemuel_quant_core.Base.Bytes.{Bytes, lit, decimal, Digit, decimal-Digit}
use lemuel_quant_core.Feed.{buy, Trade}
use lemuel_quant_core.Dwh.{Row}
use lemuel_quant_core.Dwh.Store.{append_batch}
use lemuel_quant_core.Dwh.Rollup.{rollup_once}
use lemuel_quant_core.Dwh.Rollup.Windows.{is_on_bound, rollup_once-windows}
use lemuel_quant_core.Dwh.Store.Arrivals.{count}
use lemuel_quant_core.Dwh.Store.Bags.{
  Call, put, put_batch, ask, answered, promised, answered-promised,
}
use mathlib.Core.Quot
use lemuel_quant_core.Dwh.Ingest.Published.{Solid}
use lemuel_quant_core.Dwh.Subscriber.{Round, refused, connected, session, run_loop}
use lemuel_quant_core.Dwh.Subscriber.Rounds.{run_loop-session}
use lemuel_quant_core.Dwh.Subscriber.Published.{
  Arrival, confirmed, published, kis, binance, to_reply,
}
use lemuel_quant_core.Tests.{whole_double}

insert_row : Row ℕ → List (Row ℕ) → List (Row ℕ)
insert_row r [] = r ∷ []
insert_row r (q ∷ rows) =
    let rest = insert_row r rows in if leb r.ts_ns q.ts_ns then r ∷ q ∷ rows else q ∷ rest

unfoldable pub sort_rows : List (Row ℕ) → List (Row ℕ)
unfolding insert_row
sort_rows [] = []
sort_rows (r ∷ rows) = insert_row r (sort_rows rows)

count-insert_row :
    (p : Row ℕ → Bool) (r : Row ℕ) (rows : List (Row ℕ))
    → count p (insert_row r rows) ≡ count p (r ∷ rows)
unfolding insert_row
count-insert_row p r [] = refl
count-insert_row p r (q ∷ rows) = ground (arith, count-insert_row p r rows)

pub count-sort_rows :
    (p : Row ℕ → Bool) (rows : List (Row ℕ)) → count p (sort_rows rows) ≡ count p rows
unfolding sort_rows
count-sort_rows p [] = refl
count-sort_rows p (r ∷ rows) =
    count-insert_row p r (sort_rows rows) ∙ ground (arith, count-sort_rows p rows)

abbrev pub row_at : ℕ → Row ℕ
row_at t = record { ts_ns = t; channel = lit "trade"; tags = []; values = [] }

abbrev rows : List (Row ℕ)
rows = row_at 300 ∷ row_at 200 ∷ row_at 250 ∷ []

rollup_once-windows_example :
    count (λ r. true) (rollup_once sort_rows (append_batch rows []) 100 200)
      + count (λ r. true) (rollup_once sort_rows (append_batch rows []) 200 300)
    ≡ count (λ r. true) (rollup_once sort_rows (append_batch rows []) 100 300)
      + count (is_on_bound (λ r. true) 200) (rollup_once sort_rows (append_batch rows []) 100 300)
rollup_once-windows_example =
    rollup_once-windows sort_rows count-sort_rows (append_batch rows []) (λ r. true) 100 200 300
      (omega arith) (omega arith)

Digit→Solid : (s : Bytes) → All Digit s → Solid s
Digit→Solid [] h = tt
Digit→Solid (c ∷ s) ((low, high), h) =
    ((λ e. omega arith, λ e. omega arith, λ e. omega arith, λ e. omega arith), Digit→Solid s h)

decimal-Solid : (n : ℕ) → Solid (decimal n)
decimal-Solid n = Digit→Solid (decimal n) (decimal-Digit n)

abbrev trade : Trade ℕ
trade = record {
  symbol = lit "005930";
  price = 70_100;
  quantity = 5;
  side = buy;
  exchange_ts_ns = 0;
  local_ts_ns = 7;
  trade_id = [];
}

abbrev arrivals : List (Arrival ℕ)
arrivals =
    confirmed (lit "trade.kis.*") (lit "1")
    ∷ published (lit "trade.kis.*") 250 kis trade
    ∷ published (lit "trade.binance.*") 350 binance trade
    ∷ []

abbrev pub one_or_two : Bool → ℕ
one_or_two b = if b then 1 else 2

pub reads_side :
    (b : Bool) → whole_double.stod (if b then lit "1" else lit "2") ≡ some (one_or_two b)
unfolding whole_double
reads_side true = refl
reads_side false = refl

pub print-Solid : (n : ℕ) → Solid (whole_double.print n)
unfolding whole_double
print-Solid n = decimal-Solid n

-- No connection at first, then one that is lost, then one during which the loop is stopped.
abbrev three_rounds : List Round
three_rounds =
    refused ∷ connected (map to_reply arrivals) true ∷ connected (map to_reply arrivals) false ∷ []

run_loop-session_example :
    (run_loop {D = ℕ} (lit "trade.*" ∷ lit "book.*" ∷ []) three_rounds []).0
    ≡ session (map to_reply (arrivals ++ arrivals)) []
run_loop-session_example = run_loop-session (lit "trade.*" ∷ lit "book.*" ∷ []) three_rounds []

abbrev calls : List (Call ℕ)
calls =
    put (row_at 300)
    ∷ ask (lit "trade") 100 400
    ∷ put_batch (row_at 200 ∷ row_at 500 ∷ [])
    ∷ ask (lit "trade") 100 400
    ∷ []

answered-promised_example :
    map Quot.mk (answered sort_rows calls (append_batch [] [])) ≡ promised calls (Quot.mk [])
answered-promised_example = answered-promised sort_rows count-sort_rows calls []
