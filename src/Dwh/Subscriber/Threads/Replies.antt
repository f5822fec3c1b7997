-- ===== src/Dwh/Subscriber/Threads/Replies.antt =====
-- A connection of `RedisSubscriber` (modules/data-warehouse/src/redis_subscriber.cpp), from its
-- subscriptions to its replies, as moves of the worker.
use lemuel_quant_core.Base.{
  ℕ, ◌≡◌, refl, ap, ◌∙◌, true, Option, none, some, ◌>>=◌, List, [], ◌∷◌, ◌++◌, map, length, arith,
}
use lemuel_quant_core.Base.Bytes.{Bytes}
use lemuel_quant_core.Feed.{Double}
use lemuel_quant_core.Feed.Threads.{Owner}
use lemuel_quant_core.Dwh.{Row}
use lemuel_quant_core.Dwh.Subscriber.{Reply, on_reply, session}
use lemuel_quant_core.Dwh.Subscriber.Threads.{
  Place, Answer, silent, accepted, replied, System, work, works,
}

abbrev pub reply_to : ℕ × Reply → Answer
reply_to (now, reply) = replied now reply

-- The test of the inner loop and a reply, for each reply.
abbrev pub tests_and : List (ℕ × Reply) → List Answer
tests_and [] = []
tests_and (r ∷ replies) = silent ∷ reply_to r ∷ tests_and replies

module _ {ℓ} {D : Type ℓ} where
  -- A worker that runs and was not told to stop.
  abbrev pub running_at : Place → List (Bytes × List (Row D)) → System D
  running_at place store = record {
    running = true;
    joinable = true;
    place = place;
    owner = Owner.idle;
    store = store;
  }

  abbrev pub behind_replies : Option (List (Bytes × List (Row D))) → Option (System D)
  behind_replies none = none
  behind_replies (some m) = some (running_at Place.inner m)

module _ {ℓ} {D : Type ℓ} ⦃d : Double D⦄ (patterns : List Bytes) where
  work-reply :
      (now : ℕ) (reply : Reply) (store : List (Bytes × List (Row D)))
      → work patterns (replied now reply) (running_at Place.reading store)
        ≡ behind_replies (on_reply now reply store)
  unfolding work
  work-reply now reply store =
      elim (on_reply now reply store)
        as (λ o.
          elim o [ none ↦ none | some m ↦ some (running_at Place.inner m) ] ≡ behind_replies o) [
            | none ↦ refl
            | some m ↦ refl
          ]

  -- A reply and what follows it.
  works-reply :
      (o : Option (List (Bytes × List (Row D)))) (answers : List Answer)
      (next : List (Bytes × List (Row D)) → Option (List (Bytes × List (Row D))))
      → ((m : List (Bytes × List (Row D)))
          → works patterns answers (running_at Place.inner m) ≡ behind_replies (next m))
      → (behind_replies o >>= works patterns answers) ≡ behind_replies (o >>= next)
  works-reply none answers next h = refl
  works-reply (some m) answers next h = h m

  works-tests_and :
      (replies : List (ℕ × Reply)) (store : List (Bytes × List (Row D)))
      → works patterns (tests_and replies) (running_at Place.inner store)
        ≡ behind_replies (session replies store)
  unfolding works session work
  works-tests_and [] store = refl
  works-tests_and ((now, reply) ∷ replies) store =
      ap (λ o. o >>= works patterns (tests_and replies)) (work-reply now reply store)
      ∙ works-reply (on_reply now reply store) (tests_and replies) (session replies)
          (works-tests_and replies)

  works-subscribing :
      (left : List Bytes) (freed : List (ℕ × Reply)) (answers : List Answer)
      (store : List (Bytes × List (Row D)))
      → length freed ≡ length left
      → works patterns
          (map reply_to freed ++ silent ∷ answers)
          (running_at (Place.subscribing left) store)
        ≡ works patterns answers (running_at Place.inner store)
  unfolding works work
  works-subscribing [] [] answers store h = refl
  works-subscribing [] (r ∷ freed) answers store h = absurd (omega (arith, h))
  works-subscribing (p ∷ left) [] answers store h = absurd (omega (arith, h))
  works-subscribing (p ∷ left) ((now, reply) ∷ freed) answers store h =
      works-subscribing left freed answers store (omega (arith, h))

  -- A connection handles its replies as `session` does, each behind a test of the flag, but the first
  -- ones, as many as there are patterns, it takes for the answers to its subscriptions: whatever they are,
  -- published messages among them, the store is as if they had not come.
  pub works-session :
      (freed replies : List (ℕ × Reply)) (store : List (Bytes × List (Row D)))
      → length freed ≡ length patterns
      → works patterns
          (accepted ∷ (map reply_to freed ++ silent ∷ tests_and replies))
          (running_at Place.connecting store)
        ≡ behind_replies (session replies store)
  unfolding works work
  works-session freed replies store h =
      works-subscribing patterns freed (tests_and replies) store h ∙ works-tests_and replies store
