-- ===== src/Dwh/Subscriber/Threads.antt =====
-- The two threads of the warehouse around `RedisSubscriber`, move by move: the one that calls `start` and
-- `stop`, and the worker in `run_loop` (modules/data-warehouse/src/redis_subscriber.cpp), in the build with
-- hiredis. What a call of hiredis comes to is an argument of the move that makes it.
pub mod Waiting
pub mod Ending
pub mod Replies
pub mod Settled
use lemuel_quant_core.Base.{
  ℕ, Bool, true, false, Option, none, some, ◌>>=◌, List, [], ◌∷◌, if◌then◌else◌,
}
use lemuel_quant_core.Base.Bytes.{Bytes}
use lemuel_quant_core.Feed.{Double}
use lemuel_quant_core.Feed.Threads.{Owner, idle, starting, stopping}
use lemuel_quant_core.Dwh.{Row}
use lemuel_quant_core.Dwh.Subscriber.{Reply, on_reply}

-- Where the worker stands: it does not exist; at the test of the outer loop; in `redisConnectWithTimeout`;
-- in front of the subscriptions that are left; at the test of the inner loop; in `redisGetReply`; at the
-- test behind it; in one of the two delays; behind the loop.
pub data Place : Type 0 where
  gone outer connecting : Place
  subscribing : List Bytes → Place
  inner reading behind delayed finished : Place

-- What a call of hiredis comes to: nothing yet, a failure, a connection, or a reply at a time.
pub data Answer : Type 0 where
  silent failed accepted : Answer
  replied : ℕ → Reply → Answer

pub record System {ℓ} (D : Type ℓ) : Type ℓ where
  pub running : Bool
  -- has `worker_` a thread that was not joined?
  pub joinable : Bool
  pub place : Place
  pub owner : Owner
  pub store : List (Bytes × List (Row D))

module _ {ℓ} {D : Type ℓ} where
  -- A connection that is not made within its two seconds has failed.
  abbrev after_connect : List Bytes → Answer → System D → System D
  after_connect patterns silent s = record s { place = Place.delayed }
  after_connect patterns failed s = record s { place = Place.delayed }
  after_connect patterns accepted s = record s { place = Place.subscribing patterns }
  after_connect patterns (replied now reply) s = record s { place = Place.subscribing patterns }

  -- `redisCommand` waits for a reply, which is freed; without one it returns a null pointer.
  abbrev after_command : List Bytes → Answer → System D → System D
  after_command patterns silent s = s
  after_command patterns failed s = record s { place = Place.subscribing patterns }
  after_command patterns accepted s = s
  after_command patterns (replied now reply) s = record s { place = Place.subscribing patterns }

  abbrev subscribe : List Bytes → Answer → System D → System D
  subscribe [] a s = record s { place = Place.inner }
  subscribe (pattern_text ∷ patterns) a s = after_command patterns a s

module _ {ℓ} {D : Type ℓ} ⦃d : Double D⦄ where
  -- `redisGetReply` has no timeout; `none` is an exception of the callback.
  abbrev after_read : Answer → System D → Option (System D)
  after_read silent s = some s
  after_read failed s = some (record s { place = Place.behind })
  after_read accepted s = some s
  after_read (replied now reply) s = elim (on_reply now reply s.store) [
    | none ↦ none
    | some m ↦ some (record s { place = Place.inner; store = m })
  ]

  -- One move of the worker; an exception that leaves its thread is `std::terminate`.
  unfoldable work : List Bytes → Answer → System D → Option (System D)
  unfolding on_reply
  work patterns a s = elim s.place [
    | gone ↦ some s
    | outer ↦ some (record s { place = if s.running then Place.connecting else Place.finished })
    | connecting ↦ some (after_connect patterns a s)
    | subscribing left ↦ some (subscribe left a s)
    | inner ↦ some (record s { place = if s.running then Place.reading else Place.behind })
    | reading ↦ after_read a s
    | behind ↦ some (record s { place = if s.running then Place.delayed else Place.outer })
    | delayed ↦ some (record s { place = Place.outer })
    | finished ↦ some s
  ]

pub data Move : Type 0 where
  start_called assigned stop_called joined : Move
  worked : Answer → Move

abbrev pub is_finished : Place → Bool
is_finished finished = true
is_finished gone = false
is_finished outer = false
is_finished connecting = false
is_finished (subscribing left) = false
is_finished inner = false
is_finished reading = false
is_finished behind = false
is_finished delayed = false

module _ {ℓ} {D : Type ℓ} where
  -- The assignment to `worker_`: on a thread that was not joined it is `std::terminate`.
  abbrev assign : System D → Option (System D)
  assign s =
      if s.joinable
      then none
      else some (record s { joinable = true; place = Place.outer; owner = Owner.idle })

  -- `join` waits for the end of the loop.
  abbrev join : System D → System D
  join s =
      if s.joinable
      then (if is_finished s.place
          then record s { joinable = false; place = Place.gone; owner = Owner.idle }
          else s)
      else record s { owner = Owner.idle }

module _ {ℓ} {D : Type ℓ} ⦃d : Double D⦄ (patterns : List Bytes) where
  -- A move that its thread cannot make where it stands changes nothing; `none` is `std::terminate`.
  unfoldable move : Move → System D → Option (System D)
  unfolding work
  move start_called s = elim s.owner [
    | idle ↦ some (if s.running then s else record s { running = true; owner = Owner.starting })
    | starting ↦ some s
    | stopping ↦ some s
  ]
  move assigned s = elim s.owner [ idle ↦ some s | starting ↦ assign s | stopping ↦ some s ]
  move stop_called s = elim s.owner [
    | idle ↦ some (if s.running then record s { running = false; owner = Owner.stopping } else s)
    | starting ↦ some s
    | stopping ↦ some s
  ]
  move joined s = elim s.owner [ idle ↦ some s | starting ↦ some s | stopping ↦ some (join s) ]
  move (worked a) s = work patterns a s

  unfoldable pub moves : List Move → System D → Option (System D)
  unfolding move
  moves [] s = some s
  moves (m ∷ ms) s = move m s >>= moves ms

  -- Moves of the worker alone.
  unfoldable pub works : List Answer → System D → Option (System D)
  unfolding work
  works [] s = some s
  works (a ∷ answers) s = work patterns a s >>= works answers
