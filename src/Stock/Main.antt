-- ===== src/Stock/Main.antt =====
-- The main program of the stock feed (modules/stock-feed/src/main.cpp): its settings, and the supervising
-- loop with what stands behind it. The environment and `std::atoi` are arguments.
use lemuel_quant_core.Base.{
  ℕ, ◌≡◌, refl, Bool, true, false, Option, none, some, arith, ◌>>=◌, List, [], ◌∷◌, ◌++◌,
}
use lemuel_quant_core.Base.Bytes.{Bytes, lit}
use lemuel_quant_core.Base.Int.{ℤ, pos}
use lemuel_quant_core.Feed.Lifecycle.{Client, Worker, fresh, stop, destroy, IsValid}
use lemuel_quant_core.Feed.{Double}
use lemuel_quant_core.Feed.Reading.{Outcome, ignored, traded, booked, thrown}
use lemuel_quant_core.Stock.Kis.{Credentials}
use lemuel_quant_core.Stock.Kis.Connection.{Action, posted, opened, sent, called}
use lemuel_quant_core.Stock.Supervise.{Turn, supervise, on_trade, on_book}
use lemuel_quant_core.Stock.Supervise.Follows.{supervise-IsValid}

-- `KisClient::Options`
pub record Options : Type 0 where
  pub creds : Credentials
  pub trade_symbols : List Bytes
  pub book_symbols : List Bytes
  pub reconnect : Bool
  -- in milliseconds
  pub reconnect_delay_ms : ℕ

abbrev text_or : Bytes → Option Bytes → Bytes
text_or default none = default
text_or default (some s) = s

abbrev is_set : Option Bytes → Bool
is_set none = false
is_set (some s) = true

-- `std::getenv`
abbrev Environment : Type 0
Environment = Bytes → Option Bytes

unfoldable options_of : Environment → Options
options_of env = record {
  creds = record {
    app_key = text_or [] (env (lit "KIS_APP_KEY"));
    app_secret = text_or [] (env (lit "KIS_APP_SECRET"));
    paper = is_set (env (lit "KIS_PAPER"));
  };
  trade_symbols = lit "005930" ∷ lit "000660" ∷ [];
  book_symbols = lit "005930" ∷ lit "000660" ∷ [];
  reconnect = true;
  reconnect_delay_ms = 2000;
}

unfoldable pub redis_of : (Bytes → ℤ) → Environment → Bytes × ℤ
redis_of atoi env = (
  text_or (lit "127.0.0.1") (env (lit "LQC_REDIS_HOST")),
  elim (env (lit "LQC_REDIS_PORT")) [ none ↦ pos 6379 | some s ↦ atoi s ],
)

module _ {ℓ} {D : Type ℓ} ⦃d : Double D⦄ where
  -- The two handlers: what they publish.
  unfoldable on_outcome : Outcome D → List (Bytes × Bytes)
  unfolding on_trade on_book
  on_outcome ignored = []
  on_outcome (traded t) = on_trade t ∷ []
  on_outcome (booked b) = on_book b ∷ []
  on_outcome thrown = []

  -- What the actions of a round publish.
  unfoldable pub published_by : List (Action D) → List (Bytes × Bytes)
  unfolding on_outcome
  published_by [] = []
  published_by (called o ∷ actions) = on_outcome o ++ published_by actions
  published_by (posted url body ∷ actions) = published_by actions
  published_by (opened host port ∷ actions) = published_by actions
  published_by (sent text ∷ actions) = published_by actions

-- The rounds of the loop with the failures between them, then `stop` and the destructor of the client.
unfoldable pub main : Environment → List Turn → Option Client
unfolding options_of supervise
main env turns = do c ← supervise turns (fresh (options_of env).reconnect); destroy (stop c)

destroy-stop :
    (c : Client)
    → IsValid c
    → destroy (stop c) ≡ some (record { running = false; worker = Worker.absent; reconnect = true })
unfolding stop destroy
destroy-stop c v = ground arith

-- Whatever the rounds and the failures, and wherever a signal ends the loop, `main` returns: it is never
-- brought to `std::terminate`, and leaves no thread.
main_ends :
    (env : Environment) (turns : List Turn)
    → main env turns ≡ some (record { running = false; worker = Worker.absent; reconnect = true })
unfolding main
main_ends env turns =
    let (c, e, v) =
      supervise-IsValid turns (fresh true) (record { reconnects = refl; agrees = refl }) in
    rw e (destroy-stop c v)
