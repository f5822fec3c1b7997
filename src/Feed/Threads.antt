-- ===== src/Feed/Threads.antt =====
-- The two threads of a feed client, move by move: the one that calls `start` and `stop`, and the worker in
-- `run_loop` (modules/stock-feed/src/kis_client.cpp, modules/market-feed/src/binance_client.cpp). Each
-- access to `running_` is a move, and the moves of the threads may follow one another in any order.
pub mod Refines
pub mod Steady
pub mod Stopping
use lemuel_quant_core.Base.{
  ℕ, suc, Bool, true, false, Option, none, some, List, [], ◌∷◌, if◌then◌else◌,
}

-- Where the worker stands: it does not exist; at the outer and the inner test of `running_`; in front of
-- the connection, of a read, of the `catch`, of the test behind it, of the delay; behind the loop.
pub data Place : Type 0 where
  gone outer connecting inner reading catching behind waiting finished : Place

-- Where the owner stands: outside of both methods, between `exchange(true)` and the assignment of the
-- thread, between `exchange(false)` and the join.
pub data Owner : Type 0 where
  idle starting stopping : Owner

pub record System : Type 0 where
  pub running : Bool
  pub reconnect : Bool
  -- has `worker_` a thread that was not joined?
  pub joinable : Bool
  pub place : Place
  pub owner : Owner
  -- the calls of the handlers
  pub calls : ℕ

abbrev pub initial : Bool → System
initial reconnect = record {
  running = false;
  reconnect = reconnect;
  joinable = false;
  place = Place.gone;
  owner = Owner.idle;
  calls = 0;
}

-- What a connection, or the reading and the handling of a frame, comes to: an exception, a return without
-- a call of a handler, or one with it.
pub data Outcome : Type 0 where
  throws returns handles : Outcome

abbrev after_read : Outcome → System → System
after_read throws s = record s { place = Place.catching }
after_read returns s = record s { place = Place.inner }
after_read handles s = record s { place = Place.inner; calls = suc s.calls }

abbrev after_connect : Outcome → System → System
after_connect throws s = record s { place = Place.catching }
after_connect returns s = record s { place = Place.inner }
after_connect handles s = record s { place = Place.inner }

-- One move of the worker.
unfoldable pub work : Outcome → System → System
work o s = elim s.place [
  | gone ↦ s
  | outer ↦ record s { place = if s.running then Place.connecting else Place.finished }
  | connecting ↦ after_connect o s
  | inner ↦ record s { place = if s.running then Place.reading else Place.behind }
  | reading ↦ after_read o s
  | catching ↦
      if s.reconnect
      then record s { place = Place.behind }
      else record s { running = false; place = Place.behind }
  | behind ↦ record s { place = if s.running then Place.waiting else Place.outer }
  | waiting ↦ record s { place = Place.outer }
  | finished ↦ s
]

pub data Move : Type 0 where
  start_called assigned stop_called joined : Move
  worked : Outcome → Move

abbrev pub is_finished : Place → Bool
is_finished finished = true
is_finished gone = false
is_finished outer = false
is_finished connecting = false
is_finished inner = false
is_finished reading = false
is_finished catching = false
is_finished behind = false
is_finished waiting = false

-- The assignment to `worker_`: on a thread that was not joined it is `std::terminate`.
abbrev assign : System → Option System
assign s =
    if s.joinable
    then none
    else some (record s { joinable = true; place = Place.outer; owner = Owner.idle })

-- `join` waits for the end of the loop.
abbrev join : System → System
join s =
    if s.joinable
    then (if is_finished s.place
        then record s { joinable = false; place = Place.gone; owner = Owner.idle }
        else s)
    else record s { owner = Owner.idle }

-- A move that its thread cannot make where it stands changes nothing; `none` is `std::terminate`.
unfoldable pub move : Move → System → Option System
unfolding work
move start_called s = elim s.owner [
  | idle ↦ some (if s.running then s else record s { running = true; owner = Owner.starting })
  | starting ↦ some s
  | stopping ↦ some s
]
move assigned s = elim s.owner [ idle ↦ some s | starting ↦ assign s | stopping ↦ some s ]
move stop_called s = elim s.owner [
  | idle ↦ some (if s.running then record s { running = false; owner = Owner.stopping } else s)
  | starting ↦ some s
  | stopping ↦ some s
]
move joined s = elim s.owner [ idle ↦ some s | starting ↦ some s | stopping ↦ some (join s) ]
move (worked o) s = some (work o s)

unfoldable pub moves : List Move → System → Option System
unfolding move
moves [] s = some s
moves (m ∷ ms) s = elim (move m s) [ none ↦ none | some s1 ↦ moves ms s1 ]
