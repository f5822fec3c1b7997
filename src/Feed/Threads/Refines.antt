-- ===== src/Feed/Threads/Refines.antt =====
-- The moves of the two threads against the calls that take place at once
-- (modules/stock-feed/src/kis_client.cpp, modules/market-feed/src/binance_client.cpp).
use lemuel_quant_core.Base.{
  ◌≡◌, refl, inl, inr, Bool, true, false, not, ◌&&◌, ◌||◌, ◌++◌, Option-cases, sym, ap, ◌∙◌, none,
  some, List, [], ◌∷◌, arith, if◌then◌else◌,
}
use lemuel_quant_core.Feed.Lifecycle.{Client, Worker, Event, fresh, step, run, start, stop, fail}
use mathlib.Core.Option
use lemuel_quant_core.Feed.Threads.{
  System, Place, gone, outer, connecting, inner, reading, catching, behind, waiting, finished,
  Owner, idle, starting, stopping, Move, start_called, assigned, stop_called, joined, worked,
  initial, move, moves, work, is_finished,
}

abbrev pub is_gone : Place → Bool
is_gone gone = true
is_gone outer = false
is_gone connecting = false
is_gone inner = false
is_gone reading = false
is_gone catching = false
is_gone behind = false
is_gone waiting = false
is_gone finished = false

-- The client that a state stands for: `start` takes place with the assignment of the thread, and `stop`
-- with the join. While the owner is outside of both, the loop is taken to run if the flag is up and the
-- worker stands inside of it.
abbrev seen_running : System → Bool
seen_running s = elim s.owner [ idle ↦ s.running | starting ↦ false | stopping ↦ true ]

abbrev is_in_loop : Place → Bool
is_in_loop p = not (is_gone p || is_finished p)

abbrev seen_looping : System → Bool
seen_looping s = elim s.owner [
  | idle ↦ s.running && is_in_loop s.place
  | starting ↦ false
  | stopping ↦ true
]

abbrev seen_worker : System → Worker
seen_worker s =
    if s.joinable then (if seen_looping s then Worker.looping else Worker.ended) else Worker.absent

abbrev pub seen : System → Client
seen s = record { running = seen_running s; worker = seen_worker s; reconnect = s.reconnect }

abbrev is_starting : Owner → Bool
is_starting idle = false
is_starting starting = true
is_starting stopping = false

-- A worker exists exactly if it can be joined; without one the flag is up only while the owner starts one,
-- and it is down while the owner waits for one.
pub record IsSound (s : System) : Type 0 where
  pub exists : s.joinable ≡ not (is_gone s.place)
  pub unstarted : s.joinable ≡ false → s.running ≡ is_starting s.owner
  pub stopped : s.owner ≡ Owner.stopping → s.running ≡ false
  pub looping : s.owner ≡ Owner.idle → s.running ≡ true → is_finished s.place ≡ false

move-IsSound : (m : Move) (s : System) {t : System} → IsSound s → move m s ≡ some t → IsSound t
unfolding move work
move-IsSound start_called s v e = ground arith
move-IsSound assigned s v e = ground arith
move-IsSound stop_called s v e = ground arith
move-IsSound joined s v e = ground arith
move-IsSound (worked o) s v e = ground arith

-- The call that takes place with a move, if one does.
abbrev event_of : Move → System → List Event
event_of start_called s = []
event_of assigned s = if is_starting s.owner then Event.start_called ∷ [] else []
event_of stop_called s = []
event_of joined s = elim s.owner [
  | idle ↦ []
  | starting ↦ []
  | stopping ↦ if s.joinable && not (is_finished s.place) then [] else Event.stop_called ∷ []
]
event_of (worked o) s = elim s.owner [
  | idle ↦ elim s.place [
    | catching ↦ if s.reconnect || not s.running then [] else Event.failed ∷ []
    | _ ↦ []
  ]
  | starting ↦ []
  | stopping ↦ []
]

move-seen :
    (m : Move) (s : System) → IsSound s → Option.map seen (move m s) ≡ run (event_of m s) (seen s)
unfolding move work start stop fail
move-seen start_called s v = ground arith
move-seen assigned s v = ground arith
move-seen stop_called s v = ground arith
move-seen joined s v = ground arith
move-seen (worked o) s v = ground arith

initial-IsSound : (reconnect : Bool) → IsSound (initial reconnect)
initial-IsSound reconnect = record {
  exists = refl;
  unstarted = λ e. refl;
  stopped = λ e. cc;
  looping = λ e h. refl;
}

run-append :
    (es fs : List Event) (c : Client)
    → run (es ++ fs) c ≡ elim (run es c) [ none ↦ none | some c1 ↦ run fs c1 ]
run-append [] fs c = refl
run-append (e ∷ es) fs c = elim (Option-cases (step e c)) [
  | inl t ↦ rw (t, run) refl
  | inr (c1, t) ↦ rw (t, run) (run-append es fs c1)
]

-- The calls that take place with the moves: `start` where the thread is assigned, `stop` where the join
-- ends, and a failure where the handler of an exception takes the flag down outside of these.
abbrev pub events_of : List Move → System → List Event
events_of [] s = []
events_of (m ∷ ms) s = event_of m s ++ elim (move m s) [ none ↦ [] | some t ↦ events_of ms t ]

moves-seen :
    (ms : List Move) (s : System)
    → IsSound s
    → Option.map seen (moves ms s) ≡ run (events_of ms s) (seen s)
unfolding moves
moves-seen [] s v = refl
moves-seen (m ∷ ms) s v = elim (Option-cases (move m s)) [
  | inl e ↦
      rw
        (
          e,
          moves,
          run-append (event_of m s) [] (seen s),
          sym (move-seen m s v) ∙ ap (Option.map seen) e,
        )
        refl
  | inr (t, e) ↦
      rw
        (
          e,
          moves,
          run-append (event_of m s) (events_of ms t) (seen s),
          sym (move-seen m s v) ∙ ap (Option.map seen) e,
        )
        (moves-seen ms t (move-IsSound m s v e))
]

-- However the moves of the two threads follow one another, what they come to is what the calls that take
-- place with them come to at once: the same client at the end, its loop in the thread where the client says
-- so, or `std::terminate` in both.
pub moves-run :
    (ms : List Move) (reconnect : Bool)
    → Option.map seen (moves ms (initial reconnect))
      ≡ run (events_of ms (initial reconnect)) (fresh reconnect)
moves-run ms reconnect = moves-seen ms (initial reconnect) (initial-IsSound reconnect)
