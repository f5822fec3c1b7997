-- ===== src/Feed/Lifecycle.antt =====
-- `start`, `stop`, the destructor and the end of `run_loop`, which the two feed clients share
-- (modules/stock-feed/src/kis_client.cpp, modules/market-feed/src/binance_client.cpp).
-- A call is one step; a step that calls `std::terminate` is `none`.
use lemuel_quant_core.Base.{
  ◌≡◌, refl, ap, ◌∙◌, Bool, true, false, not, Option, Option-cases, inl, inr, none, some, List, [],
  ◌∷◌, arith, if◌then◌else◌,
}

-- The thread object: none was started or it was joined; its loop runs; its loop has ended and
-- nobody has joined it.
pub data Worker : Type 0 where
  absent looping ended : Worker

pub record Client : Type 0 where
  pub running : Bool
  pub worker : Worker
  pub reconnect : Bool

abbrev pub fresh : Bool → Client
fresh reconnect = record { running = false; worker = Worker.absent; reconnect = reconnect }

-- Assigning to a thread object that can be joined calls `std::terminate`.
abbrev assign_thread : Client → Option Client
assign_thread c = elim c.worker [
  | absent ↦ some (record c { running = true; worker = Worker.looping })
  | looping ↦ none
  | ended ↦ none
]

unfoldable pub start : Client → Option Client
start c = if c.running then some c else assign_thread c

-- `if (!running_.exchange(false)) return; if (worker_.joinable()) worker_.join();`
unfoldable pub stop : Client → Client
stop c = if c.running then record c { running = false; worker = Worker.absent } else c

-- The destructor stops the client; then that of the thread object calls `std::terminate` if it can
-- still be joined.
unfoldable pub destroy : Client → Option Client
unfolding stop
destroy c = let c' = stop c in elim c'.worker [ absent ↦ some c' | looping ↦ none | ended ↦ none ]

-- The `catch` of `run_loop`: without reconnecting, the flag falls and the loop ends.
unfoldable pub fail : Client → Client
fail c = elim c.worker [
  | absent ↦ c
  | looping ↦ if c.reconnect then c else record c { running = false; worker = Worker.ended }
  | ended ↦ c
]

pub data Event : Type 0 where
  start_called stop_called failed : Event

abbrev pub step : Event → Client → Option Client
step Event.start_called c = start c
step Event.stop_called c = some (stop c)
step Event.failed c = some (fail c)

abbrev pub run : List Event → Client → Option Client
run [] c = some c
run (e ∷ es) c = elim (step e c) [ none ↦ none | some c' ↦ run es c' ]

-- The flag says whether the loop runs, and no ended thread waits to be joined.
pub record IsValid (c : Client) : Type 0 where
  pub reconnects : c.reconnect ≡ true
  pub agrees : c.worker ≡ (if c.running then Worker.looping else Worker.absent)

pub step-IsValid :
    (e : Event) (c : Client) → IsValid c → (c' : Client) × (step e c ≡ some c') × IsValid c'
unfolding start stop fail
step-IsValid Event.start_called c v =
    (record c { running = true; worker = Worker.looping }, ground arith, ground arith)
step-IsValid Event.stop_called c v = (stop c, refl, ground arith)
step-IsValid Event.failed c v = (fail c, refl, ground arith)

destroy_valid :
    (c : Client)
    → IsValid c
    → destroy c ≡ some (record c { running = false; worker = Worker.absent })
unfolding destroy
destroy_valid c v = ground arith

-- A client that reconnects can be started, stopped and hit by failures in any order without
-- `std::terminate`, and be destroyed behind them; its flag always says whether its loop runs.
run-IsValid :
    (es : List Event) (c : Client)
    → IsValid c
    → (c' : Client) × (run es c ≡ some c')
      × IsValid c'
      × (destroy c' ≡ some (record c' { running = false; worker = Worker.absent }))
run-IsValid [] c v = (c, refl, v, destroy_valid c v)
run-IsValid (e ∷ es) c v =
    let (c1, s, v1) = step-IsValid e c v in
    let (c2, r, v2, d) = run-IsValid es c1 v1 in (c2, rw (s, run) r, v2, d)

-- No call of `start`.
abbrev IsUnstarted : List Event → Type 0
IsUnstarted [] = Unit
IsUnstarted (Event.start_called ∷ es) = ⊥
IsUnstarted (Event.stop_called ∷ es) = IsUnstarted es
IsUnstarted (Event.failed ∷ es) = IsUnstarted es

-- The loop runs exactly if the flag is up.
abbrev agrees : Client → Bool
agrees c = elim c.worker [ absent ↦ not c.running | looping ↦ c.running | ended ↦ not c.running ]

step-agrees :
    (e : Event) (c : Client) {c' : Client}
    → c.reconnect ≡ false
    → agrees c ≡ true
    → step e c ≡ some c'
    → (c'.reconnect ≡ false) × (agrees c' ≡ true)
unfolding start stop fail
step-agrees Event.start_called c r v e = ground arith
step-agrees Event.stop_called c r v e = ground arith
step-agrees Event.failed c r v e = ground arith

run-agrees :
    (es : List Event) (c c' : Client)
    → c.reconnect ≡ false
    → agrees c ≡ true
    → run es c ≡ some c'
    → (c'.reconnect ≡ false) × (agrees c' ≡ true)
run-agrees [] c c' r v e = ground (arith, e)
run-agrees (x ∷ es) c c' r v e = elim (Option-cases (step x c)) [
  | inl n ↦ absurd (ground (arith, n))
  | inr (c1, e1) ↦
      let (r1, v1) = step-agrees x c r v e1 in run-agrees es c1 c' r1 v1 (rw (e1, run) at e)
]

-- Behind a failure, `stop` and further failures change nothing.
abbrev broken : Client
broken = record { running = false; worker = Worker.ended; reconnect = false }

run-broken : (es : List Event) → IsUnstarted es → run es broken ≡ some broken
unfolding stop fail
run-broken [] h = refl
run-broken (Event.start_called ∷ es) h = elim h [ ]
run-broken (Event.stop_called ∷ es) h = run-broken es h
run-broken (Event.failed ∷ es) h = run-broken es h

fail-broken :
    (c : Client) → c.reconnect ≡ false → agrees c ≡ true → c.running ≡ true → fail c ≡ broken
unfolding fail
fail-broken c r v h = ground arith

-- A client that does not reconnect, whatever calls and failures have brought it to run: once it fails, no
-- number of calls of `stop` and of failures helps, and the next `start`, or the destructor, calls
-- `std::terminate`.
pub fail_terminates :
    (es rest : List Event) (c : Client)
    → run es (fresh false) ≡ some c
    → c.running ≡ true
    → IsUnstarted rest
    → (c' : Client) × (run rest (fail c) ≡ some c') × (start c' ≡ none) × (destroy c' ≡ none)
unfolding start stop destroy
fail_terminates es rest c e h q =
    let (r, v) = run-agrees es (fresh false) c refl refl e in
    (broken, ap (run rest) (fail-broken c r v h) ∙ run-broken rest q, refl, refl)
