-- ===== src/Dwh/Subscriber/Rounds.antt =====
-- The rounds of `RedisSubscriber::run_loop` (modules/data-warehouse/src/redis_subscriber.cpp): what a lost
-- connection means for the store.
use lemuel_quant_core.Base.{
  ℕ, ◌≡◌, refl, true, false, Option-cases, inl, inr, ◌>>=◌, List, [], ◌∷◌, ◌++◌, if◌then◌else◌,
}
use lemuel_quant_core.Base.Bytes.{Bytes}
use lemuel_quant_core.Feed.{Double}
use lemuel_quant_core.Dwh.{Row}
use lemuel_quant_core.Dwh.Subscriber.{Reply, Round, refused, connected, on_reply, session, run_loop}

-- The replies of all connections, up to the one behind which the loop ends.
abbrev replies_of : List Round → List (ℕ × Reply)
replies_of [] = []
replies_of (refused ∷ rounds) = replies_of rounds
replies_of (connected replies is_running ∷ rounds) =
    replies ++ (if is_running then replies_of rounds else [])

module _ {ℓ} {D : Type ℓ} ⦃d : Double D⦄ where
  session-append :
      (xs ys : List (ℕ × Reply)) (store : List (Bytes × List (Row D)))
      → session (xs ++ ys) store ≡ (session xs store >>= session ys)
  unfolding session
  session-append [] ys store = refl
  session-append ((now, reply) ∷ xs) ys store = elim (Option-cases (on_reply now reply store)) [
    | inl e ↦ rw e refl
    | inr (store1, e) ↦ rw e (session-append xs ys store1)
  ]

  -- However often the connection is refused or lost, the store at the end is that of a single connection
  -- that brings the replies of all of them in their order: a new connection starts from the store that the
  -- last one left, and an exception at any reply ends the whole loop.
  pub run_loop-session :
      (patterns : List Bytes) (rounds : List Round) (store : List (Bytes × List (Row D)))
      → (run_loop patterns rounds store).0 ≡ session (replies_of rounds) store
  unfolding run_loop session
  run_loop-session patterns [] store = refl
  run_loop-session patterns (refused ∷ rounds) store = run_loop-session patterns rounds store
  run_loop-session patterns (connected replies false ∷ rounds) store =
      elim (Option-cases (session replies store)) [
        | inl e ↦ rw (session-append replies [] store, run_loop, e) refl
        | inr (store1, e) ↦ rw (session-append replies [] store, run_loop, e) refl
      ]
  run_loop-session patterns (connected replies true ∷ rounds) store =
      elim (Option-cases (session replies store)) [
        | inl e ↦ rw (session-append replies (replies_of rounds) store, run_loop, e) refl
        | inr (store1, e) ↦
            rw (session-append replies (replies_of rounds) store, run_loop, e)
              (run_loop-session patterns rounds store1)
      ]
