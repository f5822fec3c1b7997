-- ===== src/Market/Main.antt =====
-- The main program of the market feed (modules/market-feed/src/main.cpp): its settings, and what the client
-- and the publisher do with the trades and the books of a session. `std::atoi` is an argument.
use lemuel_quant_core.Base.{ℕ, zero, suc, Option, ◌>>=◌, List, [], ◌∷◌, ◌++◌}
use lemuel_quant_core.Base.Bytes.{Bytes, lit}
use lemuel_quant_core.Base.Int.{ℤ, pos}
use lemuel_quant_core.Feed.{Double}
use lemuel_quant_core.Feed.Lifecycle.{Client, fresh, start, stop, fail, destroy}
use lemuel_quant_core.Feed.Reading.{Outcome, ignored, traded, booked, thrown}
use lemuel_quant_core.Market.Connection.{
  Options, default_options, Action, connected, shook_hands, called,
}
use lemuel_quant_core.Market.Publisher.{publish_trade, publish_book}

unfoldable pub options : Options
options = record default_options {
  subscriptions = record {
    trade_symbols = lit "btcusdt" ∷ lit "ethusdt" ∷ [];
    book_symbols = lit "btcusdt" ∷ lit "ethusdt" ∷ [];
    book_depth = 20;
  };
}

-- The host and the port of Redis, from the arguments behind the name of the program.
unfoldable pub redis_of : (Bytes → ℤ) → List Bytes → Bytes × ℤ
redis_of atoi [] = (lit "127.0.0.1", pos 6379)
redis_of atoi (host ∷ []) = (host, pos 6379)
redis_of atoi (host ∷ port ∷ rest) = (host, atoi port)

module _ {ℓ} {D : Type ℓ} ⦃d : Double D⦄ where
  -- The two handlers: what they publish, without a prefix.
  unfoldable on_outcome : Outcome D → List (Bytes × Bytes)
  unfolding publish_trade publish_book
  on_outcome ignored = []
  on_outcome (traded t) = publish_trade [] t ∷ []
  on_outcome (booked b) = publish_book [] b ∷ []
  on_outcome thrown = []

  -- What the actions of a round publish.
  unfoldable pub published_by : List (Action D) → List (Bytes × Bytes)
  unfolding on_outcome
  published_by [] = []
  published_by (called o ∷ actions) = on_outcome o ++ published_by actions
  published_by (connected host port ∷ actions) = published_by actions
  published_by (shook_hands host target ∷ actions) = published_by actions

-- The connection fails `n` times.
abbrev pub failures : ℕ → Client → Client
failures zero c = c
failures (suc n) c = failures n (fail c)

-- `start`, the wait for a signal, `stop`, and the destructor of the client.
unfoldable pub main : ℕ → Option Client
unfolding options
main n = do c ← start (fresh options.reconnect); destroy (stop (failures n c))
