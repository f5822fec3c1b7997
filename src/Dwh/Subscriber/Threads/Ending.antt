-- ===== src/Dwh/Subscriber/Threads/Ending.antt =====
-- How the worker of `RedisSubscriber` ends (modules/data-warehouse/src/redis_subscriber.cpp).
use lemuel_quant_core.Base.{
  ℕ, ◌+◌, ◌-◌, ◌≤◌, ◌≡◌, ◌≢◌, refl, ap, ◌∙◌, ◌⊎◌, false, Option-cases, inl, inr, Option, none, some,
  List, [], ◌∷◌, All, arith, length,
}
use lemuel_quant_core.Base.Bytes.{Bytes}
use lemuel_quant_core.Feed.{Double}
use lemuel_quant_core.Dwh.{Row}
use lemuel_quant_core.Dwh.Subscriber.{Reply, on_reply}
use lemuel_quant_core.Dwh.Subscriber.Threads.{
  Place, gone, outer, connecting, subscribing, inner, reading, behind, delayed, finished, Answer,
  silent, failed, accepted, replied, System, work, works, after_read,
}

-- A failure, or a reply.
abbrev IsAnswer : Answer → Type 0
IsAnswer silent = ⊥
IsAnswer failed = Unit
IsAnswer accepted = ⊥
IsAnswer (replied now reply) = Unit

-- The moves that are left to the worker once the flag has fallen.
abbrev moves_left : List Bytes → Place → ℕ
moves_left patterns gone = 0
moves_left patterns outer = 1
moves_left patterns connecting = 5 + length patterns
moves_left patterns (subscribing left) = 4 + length left
moves_left patterns inner = 3
moves_left patterns reading = 4
moves_left patterns behind = 2
moves_left patterns delayed = 2
moves_left patterns finished = 0

finished_of_none_left :
    (patterns : List Bytes) (p : Place) → p ≢ gone → moves_left patterns p ≤ 0 → p ≡ finished
finished_of_none_left patterns p n h = ground (arith, n)

module _ {ℓ} {D : Type ℓ} ⦃d : Double D⦄ (patterns : List Bytes) where
  record IsNearer (s t : System D) : Type 0 where
    down : t.running ≡ false
    stays : t.place ≢ gone
    left : moves_left patterns t.place ≤ moves_left patterns s.place - 1

  abbrev IsNext : Answer → System D → Type ℓ
  IsNext a s =
      (work patterns a s ≡ none) ⊎ ((t : System D) × (work patterns a s ≡ some t) × IsNearer s t)

  moved :
      (a : Answer) (s : System D) (p : Place)
      → s.running ≡ false
      → work patterns a s ≡ some (record s { place = p })
      → p ≢ gone
      → moves_left patterns p ≤ moves_left patterns s.place - 1
      → IsNext a s
  moved a s p h e n few =
      inr (record s { place = p }, e, record { down = h; stays = n; left = few })

  work-reading :
      (a : Answer) (s : System D) → s.place ≡ reading → work patterns a s ≡ after_read a s
  unfolding work
  work-reading silent s p = rw p refl
  work-reading failed s p = rw p refl
  work-reading accepted s p = rw p refl
  work-reading (replied now reply) s p = rw p refl

  next_reply :
      (now : ℕ) (reply : Reply) (s : System D)
      → s.running ≡ false
      → s.place ≡ reading
      → IsNext (replied now reply) s
  next_reply now reply s h p =
      let stored : Option (List (Bytes × List (Row D))) → Option (System D) =
        λ o. elim o [ none ↦ none | some m ↦ some (record s { place = inner; store = m }) ] in
      let e = work-reading (replied now reply) s p in
      elim (Option-cases (on_reply now reply s.store)) [
        | inl f ↦ inl (e ∙ ap stored f)
        | inr (m, f) ↦ inr (
          record s { place = inner; store = m },
          e ∙ ap stored f,
          record { down = h; stays = λ e. cc; left = rw p (omega arith) },
        )
      ]

  next :
      (a : Answer) (s : System D) (p : Place)
      → IsAnswer a
      → s.running ≡ false
      → s.place ≡ p
      → p ≢ gone
      → IsNext a s
  unfolding work
  next a s gone q h e n = absurd (n refl)
  next a s outer q h e n = moved a s finished h (rw (e, h) refl) (λ e. cc) (omega arith)
  next silent s connecting q h e n = elim q [ ]
  next accepted s connecting q h e n = elim q [ ]
  next failed s connecting q h e n =
      moved failed s delayed h (rw e refl) (λ e. cc) (rw e (omega arith))
  next (replied now reply) s connecting q h e n =
      moved (replied now reply) s (subscribing patterns) h (rw e refl) (λ e. cc)
        (rw e (omega arith))
  next a s (subscribing []) q h e n = moved a s inner h (rw e refl) (λ e. cc) (rw e (omega arith))
  next silent s (subscribing (pattern_text ∷ left)) q h e n = elim q [ ]
  next accepted s (subscribing (pattern_text ∷ left)) q h e n = elim q [ ]
  next failed s (subscribing (pattern_text ∷ left)) q h e n =
      moved failed s (subscribing left) h (rw e refl) (λ e. cc) (rw e (omega arith))
  next (replied now reply) s (subscribing (pattern_text ∷ left)) q h e n =
      moved (replied now reply) s (subscribing left) h (rw e refl) (λ e. cc) (rw e (omega arith))
  next a s inner q h e n = moved a s behind h (rw (e, h) refl) (λ e. cc) (rw e (omega arith))
  next silent s reading q h e n = elim q [ ]
  next accepted s reading q h e n = elim q [ ]
  next failed s reading q h e n = moved failed s behind h (rw e refl) (λ e. cc) (rw e (omega arith))
  next (replied now reply) s reading q h e n = next_reply now reply s h e
  next a s behind q h e n = moved a s outer h (rw (e, h) refl) (λ e. cc) (rw e (omega arith))
  next a s delayed q h e n = moved a s outer h (rw e refl) (λ e. cc) (rw e (omega arith))
  next a s finished q h e n = moved a s finished h (rw e refl) (λ e. cc) (rw e (omega arith))

  -- Once `stop` has taken the flag down, as many replies and failures as moves are left where the worker
  -- stands are enough: an exception of the callback has ended the process, or the loop has ended.
  pub works_ended :
      (answers : List Answer) (s : System D)
      → All IsAnswer answers
      → s.running ≡ false
      → s.place ≢ gone
      → moves_left patterns s.place ≤ length answers
      → (works patterns answers s ≡ none)
        ⊎ ((t : System D) × (works patterns answers s ≡ some t) × (t.place ≡ finished))
  unfolding works
  works_ended [] s q h n few = inr (s, refl, finished_of_none_left patterns s.place n few)
  works_ended (a ∷ answers) s (r, q) h n few = elim (next a s s.place r h refl n) [
    | inl e ↦ inl (rw e refl)
    | inr (t, e, k) ↦ rw e (works_ended answers t q k.down k.stays (omega (arith, k.left)))
  ]
