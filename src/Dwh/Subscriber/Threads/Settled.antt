-- ===== src/Dwh/Subscriber/Threads/Settled.antt =====
-- The two threads around `RedisSubscriber` under every order of their moves
-- (modules/data-warehouse/src/redis_subscriber.cpp).
use lemuel_quant_core.Base.{
  ℕ, ◌≡◌, refl, Bool, true, false, not, ◌&&◌, ◌||◌, none, some, List, [], ◌∷◌, All, arith,
  if◌then◌else◌,
}
use lemuel_quant_core.Base.Bytes.{Bytes}
use lemuel_quant_core.Feed.{Double}
use lemuel_quant_core.Feed.Threads.{idle, starting, stopping}
use lemuel_quant_core.Dwh.{Row}
use lemuel_quant_core.Dwh.Subscriber.{Reply, on_reply}
use lemuel_quant_core.Dwh.Subscriber.Threads.{
  Place, gone, outer, connecting, subscribing, inner, reading, behind, delayed, finished, silent,
  failed, accepted, replied, System, work, is_finished, Move, start_called, assigned, stop_called,
  joined, worked, move, moves,
}

abbrev is_gone : Place → Bool
is_gone gone = true
is_gone outer = false
is_gone connecting = false
is_gone (subscribing left) = false
is_gone inner = false
is_gone reading = false
is_gone behind = false
is_gone delayed = false
is_gone finished = false

abbrev is_looping : Place → Bool
is_looping p = not (is_gone p || is_finished p)

module _ {ℓ} {D : Type ℓ} where
  abbrev pub is_fitting : System D → Bool
  is_fitting s = elim s.owner [
    | idle ↦
        if s.running then s.joinable && is_looping s.place else not s.joinable && is_gone s.place
    | starting ↦ s.running && not s.joinable && is_gone s.place
    | stopping ↦ not s.running && s.joinable && not (is_gone s.place)
  ]

module _ (is_taken : ℕ → Reply → Bool) where
  -- A move that brings no reply but of the ones that are taken.
  abbrev IsTaken : Move → Type 0
  IsTaken start_called = Unit
  IsTaken assigned = Unit
  IsTaken stop_called = Unit
  IsTaken joined = Unit
  IsTaken (worked silent) = Unit
  IsTaken (worked failed) = Unit
  IsTaken (worked accepted) = Unit
  IsTaken (worked (replied now reply)) = is_taken now reply ≡ true

module _ {ℓ} {D : Type ℓ} ⦃d : Double D⦄ (patterns : List Bytes) (is_taken : ℕ → Reply → Bool)
    (takes : (now : ℕ) (reply : Reply) (m : List (Bytes × List (Row D)))
      → is_taken now reply ≡ true
      → (n : List (Bytes × List (Row D))) × (on_reply now reply m ≡ some n)) where
  abbrev after : Move → System D → System D
  after m s = elim (move patterns m s) [ none ↦ s | some t ↦ t ]

  move_fits :
      (m : Move) (s : System D)
      → IsTaken is_taken m
      → is_fitting s ≡ true
      → (move patterns m s ≡ some (after m s)) × (is_fitting (after m s) ≡ true)
  unfolding move work
  move_fits start_called s q v = ground arith
  move_fits assigned s q v = ground arith
  move_fits stop_called s q v = ground arith
  move_fits joined s q v = ground arith
  move_fits (worked silent) s q v = ground arith
  move_fits (worked failed) s q v = ground arith
  move_fits (worked accepted) s q v = ground arith
  move_fits (worked (replied now reply)) s q v =
      let (n, e) = takes now reply s.store q in ground (arith, e)

  -- If the callback takes every reply, no order of the moves of the two threads leads to `std::terminate`.
  -- While the owner is outside of both methods the worker is in its loop if the flag is up, and there is no
  -- worker if it is down, so that the destructor ends without one; while the owner waits in `stop` the flag
  -- is down.
  pub moves_fit :
      (ms : List Move) (s : System D)
      → All (IsTaken is_taken) ms
      → is_fitting s ≡ true
      → (t : System D) × (moves patterns ms s ≡ some t) × (is_fitting t ≡ true)
  unfolding moves
  moves_fit [] s q v = (s, refl, v)
  moves_fit (m ∷ ms) s (h, q) v =
      let (e, w) = move_fits m s h v in
      let (t, f, u) = moves_fit ms (after m s) q w in (t, rw (e, moves) f, u)
