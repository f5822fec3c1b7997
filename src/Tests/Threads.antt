-- ===== src/Tests/Threads.antt =====
-- The threads of a feed client, and the two sides of the pipes, in concrete orders.
use mathlib.Core.Option
use lemuel_quant_core.Base.{
  ℕ, ◌+◌, ◌*◌, ◌≤◌, ◌≡◌, refl, Bool, true, false, some, List, [], ◌∷◌, ◌==◌, ◌%◌, arith, length,
}
use lemuel_quant_core.Feed.Lifecycle.{fresh, run}
use lemuel_quant_core.Feed.Threads.{
  System, Place, Owner, Outcome, Move, start_called, assigned, stop_called, joined, worked, initial,
  moves,
}
use lemuel_quant_core.Feed.Threads.Refines.{seen, events_of, moves-run}
use lemuel_quant_core.Feed.Threads.Steady.{IsSteady, initial-IsSteady, moves-IsSteady}
use lemuel_quant_core.Feed.Threads.Stopping.{works, works-finished}
use lemuel_quant_core.Judge.Sandbox.Pipes
use lemuel_quant_core.Judge.Sandbox.Pipes.{Op, Limits, Parent, play}
use lemuel_quant_core.Judge.Sandbox.Pipes.Progress
use lemuel_quant_core.Judge.Sandbox.Pipes.Progress.{play-initial}
use lemuel_quant_core.Judge.Sandbox.Pipes.Stuck.{play-writing}

-- Started, connected, a read that throws, and a stop that comes between the exception and its handler.
abbrev scenario : List Move
scenario =
    start_called
    ∷ assigned
    ∷ worked Outcome.returns
    ∷ worked Outcome.returns
    ∷ worked Outcome.returns
    ∷ worked Outcome.throws
    ∷ stop_called
    ∷ worked Outcome.returns
    ∷ worked Outcome.returns
    ∷ worked Outcome.returns
    ∷ joined
    ∷ []

moves-run_example :
    Option.map seen (moves scenario (initial false))
    ≡ run (events_of scenario (initial false)) (fresh false)
moves-run_example = moves-run scenario false

moves-IsSteady_example : (t : System) × (moves scenario (initial true) ≡ some t) × IsSteady t
moves-IsSteady_example = moves-IsSteady scenario (initial true) initial-IsSteady

abbrev stopped_at_read : System
stopped_at_read = record {
  running = false;
  reconnect = true;
  joinable = true;
  place = Place.reading;
  owner = Owner.stopping;
  calls = 7;
}

abbrev last_moves : List Outcome
last_moves =
    Outcome.handles ∷ Outcome.returns ∷ Outcome.throws ∷ Outcome.returns ∷ Outcome.returns ∷ []

works-finished_example :
    ((works last_moves stopped_at_read).place ≡ Place.finished)
    × ((works last_moves stopped_at_read).calls ≤ 8)
works-finished_example = works-finished last_moves stopped_at_read refl (λ e. cc) (omega arith)

abbrev limits : Limits
limits = record { room = 2; buffer = 4; output_bytes = 3 }

-- Every third move is the parent's, if it has one.
abbrev third : ℕ → Bool
third n = n % 3 == 0

abbrev echo : List Op
echo = Op.get ∷ Op.put ∷ Op.get ∷ Op.put ∷ []

play-initial_example :
    Progress.Outcome limits 2 echo
      (play limits third (3 + 2 * 2 + 2 * length echo) (Pipes.initial 2 echo))
play-initial_example = play-initial limits third 2 echo (omega arith) (omega arith) (omega arith)

abbrev shout : List Op
shout = Op.put ∷ Op.put ∷ Op.put ∷ Op.get ∷ []

play-writing_example : (play limits third 100 (Pipes.initial 3 shout)).parent ≡ Parent.writing
play-writing_example = play-writing limits third 100 3 shout (omega arith) (omega arith)
