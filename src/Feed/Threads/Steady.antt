-- ===== src/Feed/Threads/Steady.antt =====
-- A client that reconnects, under every order of the moves of its two threads
-- (modules/stock-feed/src/kis_client.cpp, modules/market-feed/src/binance_client.cpp).
use lemuel_quant_core.Base.{
  ◌≡◌, refl, Bool, true, not, ◌&&◌, ◌||◌, none, some, List, [], ◌∷◌, arith, if◌then◌else◌,
}
use lemuel_quant_core.Feed.Threads.{
  System, Place, idle, starting, stopping, Move, start_called, assigned, stop_called, joined,
  worked, initial, move, moves, work, is_finished,
}
use lemuel_quant_core.Feed.Threads.Refines.{is_gone}

-- Is the thread in its loop?
abbrev is_looping : Place → Bool
is_looping p = not (is_gone p || is_finished p)

abbrev is_fitting : System → Bool
is_fitting s = elim s.owner [
  | idle ↦ if s.running then s.joinable && is_looping s.place else not s.joinable && is_gone s.place
  | starting ↦ s.running && not s.joinable && is_gone s.place
  | stopping ↦ not s.running && s.joinable && not (is_gone s.place)
]

pub record IsSteady (s : System) : Type 0 where
  pub reconnects : s.reconnect ≡ true
  pub fits : is_fitting s ≡ true

abbrev after : Move → System → System
after m s = elim (move m s) [ none ↦ s | some t ↦ t ]

move-IsSteady :
    (m : Move) (s : System) → IsSteady s → (move m s ≡ some (after m s)) × IsSteady (after m s)
unfolding move work
move-IsSteady start_called s v = ground arith
move-IsSteady assigned s v = ground arith
move-IsSteady stop_called s v = ground arith
move-IsSteady joined s v = ground arith
move-IsSteady (worked o) s v = ground arith

-- With reconnecting, no order of the moves of the two threads leads to `std::terminate`. While the owner
-- is outside of both methods the worker is in its loop if the flag is up, and there is no worker if it is
-- down, so that no handler is called after `stop` has returned; while the owner waits in `stop` the flag
-- is down.
pub moves-IsSteady :
    (ms : List Move) (s : System) → IsSteady s → (t : System) × (moves ms s ≡ some t) × IsSteady t
unfolding moves
moves-IsSteady [] s v = (s, refl, v)
moves-IsSteady (m ∷ ms) s v =
    let (e, w) = move-IsSteady m s v in
    let (t, f, u) = moves-IsSteady ms (after m s) w in (t, rw (e, moves) f, u)

pub initial-IsSteady : IsSteady (initial true)
initial-IsSteady = record { reconnects = refl; fits = refl }
