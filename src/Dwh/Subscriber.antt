-- ===== src/Dwh/Subscriber.antt =====
-- The replies that `RedisSubscriber` handles on a connection, with the callback of `main`, and its loop
-- over connections (modules/data-warehouse/src/redis_subscriber.cpp). What hiredis receives is an argument,
-- each reply with the time at which it comes.
pub mod Published
pub mod Rounds
pub mod Delivered
pub mod Exchange
pub mod Broker
pub mod Threads
use lemuel_quant_core.Base.{
  ℕ, Bool, Option, none, some, ◌>>=◌, List, [], ◌∷◌, ◌++◌, map, if◌then◌else◌,
}
use lemuel_quant_core.Base.Bytes.{Bytes, lit, bytes_eq}
use lemuel_quant_core.Feed.{Double}
use lemuel_quant_core.Dwh.{Row}
use lemuel_quant_core.Dwh.Ingest.{on_message}

-- An array of texts, or a reply of another type, or none.
pub data Reply : Type 0 where
  array : List Bytes → Reply
  other missing : Reply

-- A round of the outer loop: no connection, or one with the replies that its loop reads, behind which
-- `running_` is still set or not.
pub data Round : Type 0 where
  refused : Round
  connected : List (ℕ × Reply) → Bool → Round

-- A subscription, or milliseconds of sleep.
pub data Call : Type 0 where
  psubscribe : Bytes → Call
  sleep_for : ℕ → Call

module _ {ℓ} {D : Type ℓ} ⦃d : Double D⦄ where
  -- `pmessage`, the pattern, the channel and the payload; `none` is an exception of the callback.
  unfoldable pub on_reply :
      ℕ → Reply → List (Bytes × List (Row D)) → Option (List (Bytes × List (Row D)))
  unfolding on_message
  on_reply now other store = some store
  on_reply now missing store = some store
  on_reply now (array []) store = some store
  on_reply now (array (kind ∷ [])) store = some store
  on_reply now (array (kind ∷ pattern_text ∷ [])) store = some store
  on_reply now (array (kind ∷ pattern_text ∷ channel ∷ [])) store = some store
  on_reply now (array (kind ∷ pattern_text ∷ channel ∷ payload ∷ more)) store =
      if bytes_eq kind (lit "pmessage") then on_message now (channel, payload) store else some store

  -- The loop over the replies of a connection.
  unfoldable pub session :
      List (ℕ × Reply) → List (Bytes × List (Row D)) → Option (List (Bytes × List (Row D)))
  unfolding on_reply
  session [] store = some store
  session ((now, reply) ∷ replies) store = on_reply now reply store >>= session replies

  -- The store behind the rounds, `none` after an exception, and the calls on the way.
  unfoldable pub run_loop :
      List Bytes
      → List Round
      → List (Bytes × List (Row D))
      → Option (List (Bytes × List (Row D))) × List Call
  unfolding session
  run_loop patterns [] store = (some store, [])
  run_loop patterns (refused ∷ rounds) store =
      let (end, calls) = run_loop patterns rounds store in (end, sleep_for 2000 ∷ calls)
  run_loop patterns (connected replies is_running ∷ rounds) store =
      let subscribed = map psubscribe patterns in
      elim (session replies store) [
        | none ↦ (none, subscribed)
        | some store1 ↦
            let (end, calls) = run_loop patterns rounds store1 in
            if is_running
            then (end, subscribed ++ sleep_for 500 ∷ calls)
            else (some store1, subscribed)
      ]
