-- ===== src/Judge/Sandbox/Pipes/Progress.antt =====
-- The pipes when the input fits into one (modules/judge-engine/src/sandbox.cpp).
use lemuel_quant_core.Base.{
  ℕ, zero, suc, ◌+◌, ◌*◌, ◌≤◌, ◌<◌, ◌≡◌, ◌≢◌, ◌⊎◌, inl, inr, Bool, Option-cases, none, some, List,
  arith, length,
}
use native.Mathlib.Decide.{dec_lt}
use lemuel_quant_core.Judge.Sandbox.Pipes.Orders.{turn-cases, turn-none, play-keeps}
use lemuel_quant_core.Judge.Sandbox.Pipes.{
  Op, Parent, writing, reading, returned, broken, Talk, Limits, initial, parent_move, program_move,
  turn, play, puts, gets,
}

abbrev stage : Parent → ℕ
stage writing = 2
stage reading = 1
stage returned = 0
stage broken = 0

-- What is left to do, which each move lowers.
abbrev pub left : Talk → ℕ
left t = stage t.parent + 2 * t.unwritten + t.out_pipe + 2 * length t.program

parent_move-left :
    (limits : Limits) (t : Talk) {u : Talk}
    → 0 < limits.buffer
    → parent_move limits t ≡ some u
    → left u < left t
unfolding parent_move
parent_move-left limits t h e = ground arith

program_move-left :
    (limits : Limits) (t : Talk) {u : Talk} → program_move limits t ≡ some u → left u < left t
unfolding program_move
program_move-left limits t e = ground arith

-- What holds at every time if the input fits into the pipe, of a program that writes `total` bytes.
record IsSound (limits : Limits) (total : ℕ) (t : Talk) : Type 0 where
  fits : t.unwritten + t.in_pipe ≤ limits.room
  kept : t.captured + t.out_pipe + puts t.program ≤ total
  whole : t.captured ≤ limits.output_bytes → t.captured + t.out_pipe + puts t.program ≡ total
  killed : limits.output_bytes < t.captured → t.parent ≡ returned
  drained : t.parent ≡ returned → t.captured ≤ limits.output_bytes → t.out_pipe + puts t.program ≡ 0

parent_move-IsSound :
    (limits : Limits) (total : ℕ) (t : Talk) {u : Talk}
    → IsSound limits total t
    → parent_move limits t ≡ some u
    → IsSound limits total u
unfolding parent_move
parent_move-IsSound limits total t v e = ground arith

program_move-IsSound :
    (limits : Limits) (total : ℕ) (t : Talk) {u : Talk}
    → IsSound limits total t
    → program_move limits t ≡ some u
    → IsSound limits total u
unfolding program_move
program_move-IsSound limits total t v e = ground arith

turn-left :
    (limits : Limits) (parent_first : Bool) (t : Talk) {u : Talk}
    → 0 < limits.buffer
    → turn limits parent_first t ≡ some u
    → left u < left t
turn-left limits b t h e = elim (turn-cases limits b t e) [
  | inl m ↦ parent_move-left limits t h m
  | inr m ↦ program_move-left limits t m
]

turn-IsSound :
    (limits : Limits) (total : ℕ) (parent_first : Bool) (t : Talk) {u : Talk}
    → IsSound limits total t
    → turn limits parent_first t ≡ some u
    → IsSound limits total u
turn-IsSound limits total b t v e = elim (turn-cases limits b t e) [
  | inl m ↦ parent_move-IsSound limits total t v m
  | inr m ↦ program_move-IsSound limits total t v m
]

abbrev IsCaptured : Limits → ℕ → Talk → Type 0
IsCaptured limits total t =
    (t.captured ≡ total) × (total ≤ limits.output_bytes)
    ⊎ (limits.output_bytes < t.captured) × (t.captured ≤ total)

abbrev IsEnd : Limits → ℕ → Talk → Type 0
IsEnd limits total t = (t.parent ≡ broken) ⊎ ((t.parent ≡ returned) × IsCaptured limits total t)

-- Both sides wait only at the end.
waiting-IsEnd :
    (limits : Limits) (total : ℕ) (t : Talk)
    → 0 < limits.room
    → IsSound limits total t
    → parent_move limits t ≡ none
    → program_move limits t ≡ none
    → IsEnd limits total t
unfolding parent_move program_move
waiting-IsEnd limits total t h v p q = ground arith

play-IsEnd :
    (limits : Limits) (total : ℕ) (schedule : ℕ → Bool) (n : ℕ) (t : Talk)
    → 0 < limits.room
    → 0 < limits.buffer
    → IsSound limits total t
    → left t < n
    → IsEnd limits total (play limits schedule n t)
unfolding play
play-IsEnd limits total schedule zero t h k v few = absurd (omega arith)
play-IsEnd limits total schedule (suc n) t h k v few =
    elim (Option-cases (turn limits (schedule n) t)) [
      | inl e ↦
          let (p, q) = turn-none limits (schedule n) t e in
          rw (e, play) (waiting-IsEnd limits total t h v p q)
      | inr (u, e) ↦
          rw (e, play)
            (play-IsEnd limits total schedule n u h k (turn-IsSound limits total (schedule n) t v e)
              (omega (arith, turn-left limits (schedule n) t k e)))
    ]

initial-IsSound :
    (limits : Limits) (size : ℕ) (program : List Op)
    → size ≤ limits.room
    → IsSound limits (puts program) (initial size program)
initial-IsSound limits size program h = ground arith

-- A program that still reads what is on its way raises no SIGPIPE.
record IsRead (t : Talk) : Type 0 where
  enough : t.parent ≡ writing → t.unwritten + t.in_pipe ≤ gets t.program
  unbroken : t.parent ≢ broken

parent_move-IsRead :
    (limits : Limits) (t : Talk) {u : Talk} → IsRead t → parent_move limits t ≡ some u → IsRead u
unfolding parent_move
parent_move-IsRead limits t v e = ground arith

program_move-IsRead :
    (limits : Limits) (t : Talk) {u : Talk} → IsRead t → program_move limits t ≡ some u → IsRead u
unfolding program_move
program_move-IsRead limits t v e = ground arith

play-ne-broken :
    (limits : Limits) (schedule : ℕ → Bool) (n size : ℕ) (program : List Op)
    → size ≤ gets program
    → (play limits schedule n (initial size program)).parent ≢ broken
play-ne-broken limits schedule n size program h =
    let v : IsRead (initial size program) = record {
      enough = λ e. omega arith;
      unbroken = λ e. cc;
    } in
    (play-keeps limits IsRead (λ t u. parent_move-IsRead limits t)
      (λ t u. program_move-IsRead limits t) schedule n (initial size program) v).unbroken

-- `run` has returned with the whole output, if that is within the limit, or else with more than the limit;
-- or the judge was ended by a program that did not read all of its input.
abbrev pub Outcome : Limits → ℕ → List Op → Talk → Type 0
Outcome limits size program t =
    ((t.parent ≡ broken) × (gets program < size))
    ⊎ ((t.parent ≡ returned) × IsCaptured limits (puts program) t)

-- If the whole input fits into the pipe, then in every order of the moves of the judge and the program,
-- after a number of moves that the input and the program bound, `run` has returned: with all that the
-- program writes if that is within the limit, and otherwise with more than the limit. The one other end is
-- SIGPIPE, and it needs a program that does not read all of its input.
pub play-initial :
    (limits : Limits) (schedule : ℕ → Bool) (size : ℕ) (program : List Op)
    → 0 < limits.room
    → 0 < limits.buffer
    → size ≤ limits.room
    → Outcome limits size program
        (play limits schedule (3 + 2 * size + 2 * length program) (initial size program))
play-initial limits schedule size program h k fits =
    let n = 3 + 2 * size + 2 * length program in
    elim (play-IsEnd limits (puts program) schedule n (initial size program) h k
      (initial-IsSound limits size program fits) (omega arith)) [
        | inl b ↦ elim (dec_lt (gets program) size) [
          | yes few ↦ inl (b, few)
          | no all ↦ absurd (play-ne-broken limits schedule n size program (omega arith) b)
        ]
        | inr r ↦ inr r
      ]
