-- ===== src/Stock/Supervise.antt =====
-- The supervising loop and the published JSON of modules/stock-feed/src/main.cpp.
pub mod Follows
use lemuel_quant_core.Base.{
  ℕ, zero, suc, Bool, true, false, not, ◌&&◌, ◌||◌, Option, none, some, List, [], ◌∷◌, ◌++◌,
  if◌then◌else◌,
}
use lemuel_quant_core.Base.Bytes.{Bytes, lit, decimal}
use lemuel_quant_core.Feed.{Double, Side, buy, sell, Trade, PriceLevel, OrderBook}
use lemuel_quant_core.Feed.Lifecycle.{Client, start, stop, fail, destroy}
use lemuel_quant_core.Stock.Session.{
  State, closed, pre_open, regular, closing, after_hours, state_at,
}

abbrev pub is_side_buy : Side → Bool
is_side_buy buy = true
is_side_buy sell = false

module _ {ℓ} {D : Type ℓ} ⦃d : Double D⦄ where
  open d use {print}

  unfoldable pub trade_to_json : Trade D → Bytes
  trade_to_json t =
      lit "{\"symbol\":\""
      ++ (t.symbol
          ++ (lit "\","
              ++ (lit "\"price\":"
                  ++ (print t.price
                      ++ (lit ","
                          ++ (lit "\"qty\":"
                              ++ (print t.quantity
                                  ++ (lit ","
                                      ++ (lit "\"side\":"
                                          ++ ((if is_side_buy t.side then lit "1" else lit "2")
                                              ++ (lit ","
                                                  ++ (lit "\"ex_ts\":"
                                                      ++ (decimal t.exchange_ts_ns
                                                          ++ (lit ","
                                                            ++ (lit "\"local_ts\":"
                                                            ++ (decimal t.local_ts_ns
                                                            ++ lit "}"))))))))))))))))

  abbrev level_json : PriceLevel D → Bytes
  level_json l = lit "[" ++ print l.price ++ lit "," ++ print l.quantity ++ lit "]"

  -- The loop over the levels: a comma before each but the first.
  abbrev pub levels_json : ℕ → List (PriceLevel D) → Bytes
  levels_json i [] = []
  levels_json zero (l ∷ ls) = level_json l ++ levels_json 1 ls
  levels_json (suc i) (l ∷ ls) = lit "," ++ level_json l ++ levels_json (suc (suc i)) ls

  unfoldable pub book_to_json : OrderBook D → Bytes
  book_to_json b =
      lit "{\"symbol\":\""
      ++ b.symbol
      ++ lit "\",\"bids\":["
      ++ levels_json 0 b.bids
      ++ lit "],\"asks\":["
      ++ levels_json 0 b.asks
      ++ lit "],\"local_ts\":"
      ++ decimal b.local_ts_ns
      ++ lit "}"

  -- What the handlers of `main` publish: the channel and the payload.
  unfoldable pub on_trade : Trade D → Bytes × Bytes
  unfolding trade_to_json
  on_trade t = (lit "trade.kis." ++ t.symbol, trade_to_json t)

  unfoldable pub on_book : OrderBook D → Bytes × Bytes
  unfolding book_to_json
  on_book b = (lit "book.kis." ++ b.symbol, book_to_json b)

abbrev pub is_tradeable : State → Bool
is_tradeable regular = true
is_tradeable closing = true
is_tradeable pre_open = true
is_tradeable after_hours = true
is_tradeable closed = false

-- One round of the loop at a time; `none` is `std::terminate`.
unfoldable pub tick : ℕ → Client → Option Client
tick now c =
    let tradeable = is_tradeable (state_at now) in
    if tradeable && not c.running
    then start c
    else if not tradeable && c.running
    then some (stop c)
    else some c

-- Between two rounds the connection may fail any number of times.
pub data Turn : Type 0 where
  round : ℕ → Turn
  failure : Turn

abbrev pub turn : Turn → Client → Option Client
turn (Turn.round now) c = tick now c
turn Turn.failure c = some (fail c)

unfoldable pub supervise : List Turn → Client → Option Client
supervise [] c = some c
supervise (t ∷ ts) c = elim (turn t c) [ none ↦ none | some c' ↦ supervise ts c' ]
