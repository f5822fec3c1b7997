-- ===== src/Feed/Redis.antt =====
-- The connection of the two publishers to Redis: `MiniRedisPublisher` (modules/stock-feed/src/main.cpp) and
-- `RedisPublisher::Impl` (modules/market-feed/src/redis_publisher.cpp), which are the same. What hiredis
-- answers to a command is an argument: `true` sets the error of the context.
use lemuel_quant_core.Base.{
  ◌≡◌, refl, ap, Bool, List, [], ◌∷◌, ◌++◌, if◌then◌else◌, Bool-cases, inl, inr,
}
use lemuel_quant_core.Base.Bytes.{Bytes}

-- No context, one with an error, or one without.
pub data Context : Type 0 where
  missing failed ready : Context

-- One publication: the context, and what is sent.
unfoldable pub publish :
    (Bytes × Bytes → Bool) → Bytes × Bytes → Context → Context × List (Bytes × Bytes)
publish breaks message missing = (missing, [])
publish breaks message failed = (failed, [])
publish breaks message ready = (if breaks message then failed else ready, message ∷ [])

unfoldable pub publish_all :
    (Bytes × Bytes → Bool) → List (Bytes × Bytes) → Context → Context × List (Bytes × Bytes)
unfolding publish
publish_all breaks [] ctx = (ctx, [])
publish_all breaks (m ∷ messages) ctx =
    let (ctx1, sent) = publish breaks m ctx in
    let (ctx2, more) = publish_all breaks messages ctx1 in (ctx2, sent ++ more)

-- The messages up to the first that breaks the connection, and that one.
abbrev until_break : (Bytes × Bytes → Bool) → List (Bytes × Bytes) → List (Bytes × Bytes)
until_break breaks [] = []
until_break breaks (m ∷ messages) = m ∷ (if breaks m then [] else until_break breaks messages)

publish_all-failed :
    (breaks : Bytes × Bytes → Bool) (messages : List (Bytes × Bytes))
    → (publish_all breaks messages failed).1 ≡ []
unfolding publish_all
publish_all-failed breaks [] = refl
publish_all-failed breaks (m ∷ messages) = publish_all-failed breaks messages

-- A publisher that is connected sends its messages in their order up to the first at which the connection
-- breaks, and none after it: it never connects again.
pub publish_all-until_break :
    (breaks : Bytes × Bytes → Bool) (messages : List (Bytes × Bytes))
    → (publish_all breaks messages ready).1 ≡ until_break breaks messages
unfolding publish_all
publish_all-until_break breaks [] = refl
publish_all-until_break breaks (m ∷ messages) = elim (Bool-cases (breaks m)) [
  | inl t ↦ rw (t, until_break) (ap (◌∷◌ m) (publish_all-failed breaks messages))
  | inr f ↦ rw (f, until_break) (ap (◌∷◌ m) (publish_all-until_break breaks messages))
]
