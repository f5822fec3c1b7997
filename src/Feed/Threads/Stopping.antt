-- ===== src/Feed/Threads/Stopping.antt =====
-- What `stop` waits for (modules/stock-feed/src/kis_client.cpp, modules/market-feed/src/binance_client.cpp).
use lemuel_quant_core.Base.{ℕ, ◌+◌, ◌-◌, ◌≤◌, ◌≡◌, ◌≢◌, false, List, [], ◌∷◌, arith, length}
use lemuel_quant_core.Feed.Threads.{
  System, Place, gone, outer, connecting, inner, reading, catching, behind, waiting, finished,
  Outcome, work,
}

abbrev pub works : List Outcome → System → System
works [] s = s
works (o ∷ os) s = works os (work o s)

-- The moves that are left to the worker once the flag has fallen.
abbrev moves_left : Place → ℕ
moves_left gone = 0
moves_left outer = 1
moves_left connecting = 4
moves_left inner = 3
moves_left reading = 4
moves_left catching = 3
moves_left behind = 2
moves_left waiting = 2
moves_left finished = 0

abbrev calls_left : Place → ℕ
calls_left gone = 0
calls_left outer = 0
calls_left connecting = 0
calls_left inner = 0
calls_left reading = 1
calls_left catching = 0
calls_left behind = 0
calls_left waiting = 0
calls_left finished = 0

work-running : (o : Outcome) (s : System) → s.running ≡ false → (work o s).running ≡ false
unfolding work
work-running o s h = ground arith

work-place :
    (o : Outcome) (s : System)
    → s.running ≡ false
    → moves_left (work o s).place ≤ moves_left s.place - 1
unfolding work
work-place o s h = ground arith

work-calls :
    (o : Outcome) (s : System)
    → s.running ≡ false
    → (work o s).calls + calls_left (work o s).place ≤ s.calls + calls_left s.place
unfolding work
work-calls o s h = ground arith

work-ne-gone : (o : Outcome) (s : System) → s.place ≢ gone → (work o s).place ≢ gone
unfolding work
work-ne-gone o s h = ground (arith, h)

finished_of_none_left : (p : Place) → p ≢ gone → moves_left p ≤ 0 → p ≡ finished
finished_of_none_left p n h = ground (arith, n)

works_lem :
    (os : List Outcome) (s : System)
    → s.running ≡ false
    → s.place ≢ gone
    → moves_left s.place ≤ length os
    → ((works os s).place ≡ finished) × ((works os s).calls ≤ s.calls + calls_left s.place)
works_lem [] s h n few = (finished_of_none_left s.place n few, omega arith)
works_lem (o ∷ os) s h n few =
    let (e, c) =
      works_lem os (work o s) (work-running o s h) (work-ne-gone o s n)
        (omega (arith, work-place o s h)) in
    (e, omega (arith, c, work-calls o s h))

moves_left-le : (p : Place) → moves_left p ≤ 4
moves_left-le p = ground arith

calls_left-le : (p : Place) → calls_left p ≤ 1
calls_left-le p = ground arith

-- Once `stop` has taken the flag down, the worker ends within four of its moves, wherever it stood and
-- whatever these bring, and calls a handler once more at most: the join waits for a bounded time if every
-- connection and every read ends.
pub works-finished :
    (os : List Outcome) (s : System)
    → s.running ≡ false
    → s.place ≢ gone
    → 4 ≤ length os
    → ((works os s).place ≡ finished) × ((works os s).calls ≤ s.calls + 1)
works-finished os s h n few =
    let (e, c) = works_lem os s h n (omega (arith, moves_left-le s.place)) in
    (e, omega (arith, c, calls_left-le s.place))
