-- ===== src/Dwh/Subscriber/Threads/Waiting.antt =====
-- What `RedisSubscriber::stop` waits for (modules/data-warehouse/src/redis_subscriber.cpp).
use lemuel_quant_core.Base.{◌≡◌, refl, true, some, List, [], ◌∷◌, All, arith}
use lemuel_quant_core.Base.Bytes.{Bytes}
use lemuel_quant_core.Feed.{Double}
use lemuel_quant_core.Feed.Threads.{Owner}
use lemuel_quant_core.Dwh.Subscriber.Threads.{
  reading, silent, System, work, Move, start_called, assigned, stop_called, joined, worked, move,
  moves,
}

-- No reply and no failure comes to the worker.
abbrev IsQuiet : Move → Type 0
IsQuiet start_called = Unit
IsQuiet assigned = Unit
IsQuiet stop_called = Unit
IsQuiet joined = Unit
IsQuiet (worked a) = a ≡ silent

module _ {ℓ} {D : Type ℓ} ⦃d : Double D⦄ (patterns : List Bytes) where
  move-silent :
      (m : Move) (s : System D)
      → IsQuiet m
      → s.place ≡ reading
      → s.owner ≡ Owner.stopping
      → s.joinable ≡ true
      → move patterns m s ≡ some s
  unfolding move work
  move-silent start_called s q p o j = ground (arith, o)
  move-silent assigned s q p o j = ground (arith, o)
  move-silent stop_called s q p o j = ground (arith, o)
  move-silent joined s q p o j = ground (arith, o, p, j)
  move-silent (worked a) s q p o j = rw (q, p) refl

  -- While the owner stands in `stop` and the worker in `redisGetReply`, nothing changes as long as no reply
  -- and no failure comes, in whatever order the threads move: `stop` does not return.
  moves-silent :
      (ms : List Move) (s : System D)
      → All IsQuiet ms
      → s.place ≡ reading
      → s.owner ≡ Owner.stopping
      → s.joinable ≡ true
      → moves patterns ms s ≡ some s
  unfolding moves
  moves-silent [] s q p o j = refl
  moves-silent (m ∷ ms) s (h, q) p o j = rw (move-silent m s h p o j) (moves-silent ms s q p o j)
