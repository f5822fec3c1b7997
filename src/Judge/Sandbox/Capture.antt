-- ===== src/Judge/Sandbox/Capture.antt =====
-- The read loop of `Sandbox::run` (modules/judge-engine/src/sandbox.cpp) against the whole output.
use lemuel_quant_core.Base.{
  ℕ, ◌≤◌, ◌≡◌, Option, none, some, List, [], ◌∷◌, ◌++◌, append_assoc, append-nil, arith, ltb,
  if◌then◌else◌, length, length-append, inl, inr, Bool-cases,
}
use lemuel_quant_core.Base.Bytes.{Bytes}
use lemuel_quant_core.Judge.Sandbox.{read_loop}

-- All that the child writes.
abbrev pub concat : List Bytes → Bytes
concat [] = []
concat (x ∷ xs) = x ++ concat xs

abbrev pub within : ℕ → Bytes → Option Bytes
within limit text = if ltb limit (length text) then none else some text

read_loop-within :
    (limit : ℕ) (chunks : List Bytes) (captured : Bytes)
    → length captured ≤ limit
    → read_loop limit chunks captured ≡ within limit (captured ++ concat chunks)
unfolding read_loop
read_loop-within limit [] captured h = rw (append-nil captured) (ground arith)
read_loop-within limit (chunk ∷ chunks) captured h =
    elim (Bool-cases (ltb limit (length (captured ++ chunk)))) [
      | inl over ↦
          rw (← append_assoc captured chunk (concat chunks))
            (ground (arith, length-append (captured ++ chunk) (concat chunks)))
      | inr fits ↦
          rw (fits, ← append_assoc captured chunk (concat chunks))
            (read_loop-within limit chunks (captured ++ chunk) (ground arith))
    ]

-- The loop keeps the whole output if it fits the limit, however it is cut into chunks, and reports
-- an excess otherwise.
pub read_loop-eq-within :
    (limit : ℕ) (chunks : List Bytes) → read_loop limit chunks [] ≡ within limit (concat chunks)
read_loop-eq-within limit chunks = read_loop-within limit chunks [] (omega arith)
