-- ===== src/Tests/Subscribing.antt =====
-- The subscriber of the warehouse in concrete orders of moves.
use lemuel_quant_core.Base.{
  Bool, ℕ, ◌≡◌, refl, ◌⊎◌, true, false, none, some, List, [], ◌∷◌, ◌++◌, map, arith,
}
use lemuel_quant_core.Base.Bytes.{Bytes, lit}
use lemuel_quant_core.Feed.Threads.{Owner}
use lemuel_quant_core.Dwh.Subscriber.{Reply, array, other, missing, on_reply, session}
use lemuel_quant_core.Dwh.Subscriber.Threads.{
  Place, Answer, silent, failed, accepted, System, Move, start_called, joined, worked, moves, works,
}
use lemuel_quant_core.Dwh.Subscriber.Threads.Settled.{is_fitting, moves_fit}
use lemuel_quant_core.Dwh.{Row}
use lemuel_quant_core.Dwh.Subscriber.Threads.Ending.{works_ended}
use lemuel_quant_core.Dwh.Subscriber.Threads.Replies.{
  reply_to, tests_and, running_at, behind_replies, works-session,
}
use lemuel_quant_core.Tests.{whole_double}

abbrev two_patterns : List Bytes
two_patterns = lit "trade.binance.*" ∷ lit "trade.kis.*" ∷ []

abbrev message : ℕ × Reply
message = (
  5,
  array (
      lit "pmessage"
      ∷ lit "trade.kis.*"
      ∷ lit "trade.kis.005930"
      ∷ lit "{\"symbol\":\"005930\",\"price\":70000,\"qty\":1,\"side\":\"B\"}"
      ∷ []),
)

abbrev confirmation : ℕ × Reply
confirmation = (4, array (lit "psubscribe" ∷ lit "trade.kis.*" ∷ lit "1" ∷ []))

-- A message that comes between the two subscriptions, and one behind them.
works-session_example :
    works {D = ℕ} two_patterns
      (accepted ∷ (map reply_to (confirmation ∷ message ∷ []) ++ silent ∷ tests_and (message ∷ [])))
      (running_at Place.connecting [])
    ≡ behind_replies (session (message ∷ []) [])
works-session_example =
    works-session two_patterns (confirmation ∷ message ∷ []) (message ∷ []) [] refl

-- The owner has called `stop` while the worker waits for a reply.
abbrev waiting_in_stop : System ℕ
waiting_in_stop = record {
  running = false;
  joinable = true;
  place = Place.reading;
  owner = Owner.stopping;
  store = [];
}

abbrev is_other : ℕ → Reply → Bool
is_other now other = true
is_other now missing = false
is_other now (array texts) = false

takes_other :
    (now : ℕ) (reply : Reply) (m : List (Bytes × List (Row ℕ)))
    → is_other now reply ≡ true
    → (n : List (Bytes × List (Row ℕ))) × (on_reply now reply m ≡ some n)
unfolding on_reply
takes_other now other m h = (m, refl)
takes_other now missing m h = absurd cc
takes_other now (array texts) m h = absurd cc

-- A stop while the worker waits, a reply of another type, and the end of the loop.
abbrev stopping_moves : List Move
stopping_moves =
    joined
    ∷ worked silent
    ∷ worked (Answer.replied 7 other)
    ∷ start_called
    ∷ worked silent
    ∷ worked silent
    ∷ worked silent
    ∷ joined
    ∷ []

moves_fit_example :
    (t : System ℕ) × (moves two_patterns stopping_moves waiting_in_stop ≡ some t)
    × (is_fitting t ≡ true)
moves_fit_example =
    moves_fit two_patterns is_other takes_other stopping_moves waiting_in_stop
      (tt, (tt, (refl, (tt, (tt, (tt, (tt, (tt, tt)))))))) refl

abbrev last_answers : List Answer
last_answers = reply_to message ∷ failed ∷ failed ∷ failed ∷ []

works_ended_example :
    (works two_patterns last_answers waiting_in_stop ≡ none)
    ⊎ ((t : System ℕ) × (works two_patterns last_answers waiting_in_stop ≡ some t)
        × (t.place ≡ Place.finished))
works_ended_example =
    works_ended two_patterns last_answers waiting_in_stop (tt, (tt, (tt, (tt, tt)))) refl (λ e. cc)
      (omega arith)
