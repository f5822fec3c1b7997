-- ===== src/Judge/Sandbox/Pipes.antt =====
-- How the parent of `Sandbox::run` and the program talk over the two pipes
-- (modules/judge-engine/src/sandbox.cpp): the parent writes the whole input, closes it, reads the output to
-- its end and waits. The program is what it reads and writes, byte by byte; a pipe holds `room` bytes, a
-- write to a full one and a read from an empty one wait, and a write that nobody can read any more raises
-- SIGPIPE, as pipe(7) says.
pub mod Orders
pub mod Progress
pub mod Stuck
use lemuel_quant_core.Base.{
  ℕ, zero, suc, ◌+◌, ◌-◌, Bool, true, false, Option, none, some, List, [], ◌∷◌, ltb, leb,
  if◌then◌else◌, min,
}

pub data Op : Type 0 where
  get put : Op

-- `write`, the loop of `read`, behind the wait, ended by SIGPIPE.
pub data Parent : Type 0 where
  writing reading returned broken : Parent

pub record Talk : Type 0 where
  pub parent : Parent
  -- the bytes that `write` still has to hand over
  pub unwritten : ℕ
  -- the bytes in the two pipes
  pub in_pipe : ℕ
  pub out_pipe : ℕ
  pub captured : ℕ
  -- what the program still does; behind the last it has ended
  pub program : List Op

pub record Limits : Type 0 where
  pub room : ℕ
  -- `sizeof(buf)`
  pub buffer : ℕ
  pub output_bytes : ℕ

abbrev pub initial : ℕ → List Op → Talk
initial size program = record {
  parent = Parent.writing;
  unwritten = size;
  in_pipe = 0;
  out_pipe = 0;
  captured = 0;
  program = program;
}

abbrev is_ended : List Op → Bool
is_ended [] = true
is_ended (op ∷ ops) = false

-- A byte of the input, or the close behind the last.
abbrev write_move : Limits → Talk → Option Talk
write_move limits t = elim t.unwritten [
  | zero ↦ some (record t { parent = Parent.reading })
  | suc n ↦
      if is_ended t.program
      then some (record t { parent = Parent.broken })
      else if ltb t.in_pipe limits.room
      then some (record t { unwritten = n; in_pipe = suc t.in_pipe })
      else none
]

-- A call of `read`: a chunk, which may exceed the limit, so that the program is killed, or the end.
abbrev read_move : Limits → Talk → Option Talk
read_move limits t =
    if ltb 0 t.out_pipe
    then (let n = min limits.buffer t.out_pipe in
        if ltb limits.output_bytes (t.captured + n)
        then some (record t {
          parent = Parent.returned;
          out_pipe = t.out_pipe - n;
          captured = t.captured + n;
          program = [];
        })
        else some (record t { out_pipe = t.out_pipe - n; captured = t.captured + n }))
    else if is_ended t.program
    then some (record t { parent = Parent.returned })
    else none

-- One move of the parent; `none` if it has to wait or has none left.
unfoldable pub parent_move : Limits → Talk → Option Talk
parent_move limits t = elim t.parent [
  | writing ↦ write_move limits t
  | reading ↦ read_move limits t
  | returned ↦ none
  | broken ↦ none
]

abbrev is_writing : Parent → Bool
is_writing writing = true
is_writing reading = false
is_writing returned = false
is_writing broken = false

-- One move of the program. A read of the empty pipe ends at once when the other end is closed.
unfoldable pub program_move : Limits → Talk → Option Talk
program_move limits t = elim t.program [
  | [] ↦ none
  | op ∷ ops ↦ elim op [
    | get ↦
        if ltb 0 t.in_pipe
        then some (record t { in_pipe = t.in_pipe - 1; program = ops })
        else if is_writing t.parent
        then none
        else some (record t { program = ops })
    | put ↦
        if ltb t.out_pipe limits.room
        then some (record t { out_pipe = suc t.out_pipe; program = ops })
        else none
  ]
]

abbrev first_of {ℓ} : {A : Type ℓ} → Option A → Option A → Option A
first_of none o = o
first_of (some a) o = some a

-- The move of the one whose turn it is, or that of the other if the one has to wait.
abbrev pub turn : Limits → Bool → Talk → Option Talk
turn limits parent_first t =
    if parent_first
    then first_of (parent_move limits t) (program_move limits t)
    else first_of (program_move limits t) (parent_move limits t)

-- At most `n` moves, in the order that `schedule` gives, until neither side has one.
unfoldable pub play : Limits → (ℕ → Bool) → ℕ → Talk → Talk
unfolding parent_move program_move
play limits schedule zero t = t
play limits schedule (suc n) t = elim (turn limits (schedule n) t) [
  | none ↦ t
  | some u ↦ play limits schedule n u
]

-- The bytes that a program writes.
abbrev pub puts : List Op → ℕ
puts [] = 0
puts (get ∷ ops) = puts ops
puts (put ∷ ops) = suc (puts ops)

-- The bytes that it reads, the ends that it sees included.
abbrev pub gets : List Op → ℕ
gets [] = 0
gets (get ∷ ops) = suc (gets ops)
gets (put ∷ ops) = gets ops
