-- ===== src/Judge/Sandbox/Pipes/Stuck.antt =====
-- The pipes when the input and the output are both longer than one holds
-- (modules/judge-engine/src/sandbox.cpp).
use lemuel_quant_core.Base.{ℕ, suc, ◌+◌, ◌<◌, ◌≤◌, ◌≡◌, Bool, some, List, [], ◌∷◌, arith}
use lemuel_quant_core.Judge.Sandbox.Pipes.{
  Op, get, put, writing, Talk, Limits, initial, parent_move, program_move, play,
}
use lemuel_quant_core.Judge.Sandbox.Pipes.Orders.{play-keeps}

-- The bytes that a program writes before it reads the first one.
abbrev puts_first : List Op → ℕ
puts_first [] = 0
puts_first (get ∷ ops) = 0
puts_first (put ∷ ops) = suc (puts_first ops)

-- More is on its way in both directions than the pipes hold.
record IsJammed (limits : Limits) (t : Talk) : Type 0 where
  still : t.parent ≡ writing
  in_fits : t.in_pipe ≤ limits.room
  out_fits : t.out_pipe ≤ limits.room
  in_over : limits.room < t.unwritten + t.in_pipe
  out_over : limits.room < t.out_pipe + puts_first t.program

parent_move-IsJammed :
    (limits : Limits) (t : Talk) {u : Talk}
    → IsJammed limits t
    → parent_move limits t ≡ some u
    → IsJammed limits u
unfolding parent_move
parent_move-IsJammed limits t v e = ground arith

program_move-IsJammed :
    (limits : Limits) (t : Talk) {u : Talk}
    → IsJammed limits t
    → program_move limits t ≡ some u
    → IsJammed limits u
unfolding program_move
program_move-IsJammed limits t v e = ground arith

-- If the input is longer than a pipe holds, and the program writes more than one holds before it reads for
-- the first time, then in no order of the moves, and after none of them, has `run` gone on to read the
-- output: the two wait for each other for ever.
pub play-writing :
    (limits : Limits) (schedule : ℕ → Bool) (n size : ℕ) (program : List Op)
    → limits.room < size
    → limits.room < puts_first program
    → (play limits schedule n (initial size program)).parent ≡ writing
play-writing limits schedule n size program h k =
    let v : IsJammed limits (initial size program) = ground arith in
    (play-keeps limits (IsJammed limits) (λ t u. parent_move-IsJammed limits t)
      (λ t u. program_move-IsJammed limits t) schedule n (initial size program) v).still
