-- ===== src/Judge/Sandbox/Pipes/Orders.antt =====
-- What every order of the moves keeps (modules/judge-engine/src/sandbox.cpp).
use lemuel_quant_core.Base.{ℕ, zero, suc, ◌≡◌, ◌⊎◌, inl, inr, Bool, none, some, arith, Option-cases}
use lemuel_quant_core.Judge.Sandbox.Pipes.{Talk, Limits, parent_move, program_move, turn, play}

-- A move of either side is the one that `turn` makes.
pub turn-cases :
    (limits : Limits) (parent_first : Bool) (t : Talk) {u : Talk}
    → turn limits parent_first t ≡ some u
    → (parent_move limits t ≡ some u) ⊎ (program_move limits t ≡ some u)
turn-cases limits b t e = ground arith

pub turn-none :
    (limits : Limits) (parent_first : Bool) (t : Talk)
    → turn limits parent_first t ≡ none
    → (parent_move limits t ≡ none) × (program_move limits t ≡ none)
turn-none limits b t e = ground arith

-- What each move of either side keeps, every order of the moves keeps.
pub play-keeps {κ} :
    (limits : Limits) (P : Talk → Type κ)
    → ((t u : Talk) → P t → parent_move limits t ≡ some u → P u)
    → ((t u : Talk) → P t → program_move limits t ≡ some u → P u)
    → (schedule : ℕ → Bool) (n : ℕ) (t : Talk) → P t
    → P (play limits schedule n t)
unfolding play
play-keeps limits P by_parent by_program schedule zero t v = v
play-keeps limits P by_parent by_program schedule (suc n) t v =
    elim (Option-cases (turn limits (schedule n) t)) [
      | inl e ↦ rw (e, play) v
      | inr (u, e) ↦
          let w : P u = elim (turn-cases limits (schedule n) t e) [
            | inl m ↦ by_parent t u v m
            | inr m ↦ by_program t u v m
          ] in
          rw (e, play) (play-keeps limits P by_parent by_program schedule n u w)
    ]
