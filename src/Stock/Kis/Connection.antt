-- ===== src/Stock/Kis/Connection.antt =====
-- One round of `run_loop` (modules/stock-feed/src/kis_client.cpp): the tokens, the connection, the
-- subscriptions and the frames up to an exception. What the server answers and sends is the argument
-- `Peer`; what the round asks of it and hands on is a list of actions.
pub mod Trades
use lemuel_quant_core.Base.{ℕ, Bool, none, some, List, [], ◌∷◌, ◌++◌, map, if◌then◌else◌}
use lemuel_quant_core.Base.Bytes.{Bytes, lit}
use lemuel_quant_core.Feed.{Double}
use lemuel_quant_core.Feed.Reading.{Outcome, read_frames}
use lemuel_quant_core.Stock.Kis.{Credentials, authenticate, subscribe_all, handle_frame}

pub record Peer : Type 0 where
  -- the body of an answer, empty if there is none
  pub http_post : Bytes → Bytes → Bytes
  -- the text at a key of an answer, empty if there is none
  pub sj_get_string : Bytes → Bytes → Bytes
  -- does the socket open and take the subscriptions?
  pub is_connected : Bool
  -- the frames that are read until a read throws or the client is stopped, with their times
  pub frames : List (ℕ × Bytes)

pub data Action {ℓ} (D : Type ℓ) : Type ℓ where
  posted : Bytes → Bytes → Action D
  opened : Bytes → Bytes → Action D
  sent : Bytes → Action D
  called : Outcome D → Action D

-- The answer to a request; the second one has the approval key.
abbrev answer_of : Peer → Bytes × Bytes → Bytes
answer_of peer (url, body) = peer.http_post url body

abbrev pub approval_key : Peer → List (Bytes × Bytes) → Bytes
approval_key peer [] = []
approval_key peer (r ∷ []) = []
approval_key peer (r ∷ q ∷ rest) = peer.sj_get_string (answer_of peer q) (lit "approval_key")

abbrev pub ws_port : Credentials → Bytes
ws_port creds = if creds.paper then lit "31000" else lit "21000"

module _ {ℓ} {D : Type ℓ} where
  abbrev pub post_all : List (Bytes × Bytes) → List (Action D)
  post_all [] = []
  post_all ((url, body) ∷ requests) = posted url body ∷ post_all requests

module _ {ℓ} {D : Type ℓ} ⦃d : Double D⦄ (on_trade on_book : Bool) where
  unfoldable pub run_round : Credentials → List Bytes → List Bytes → Peer → List (Action D)
  unfolding read_frames handle_frame authenticate subscribe_all
  run_round creds trade_symbols book_symbols peer =
      let requests = authenticate creds in
      post_all requests
      ++ elim (subscribe_all (approval_key peer requests) trade_symbols book_symbols) [
        | none ↦ []
        | some messages ↦
            opened (lit "ops.koreainvestment.com") (ws_port creds)
            ∷ (if peer.is_connected
                then map sent messages
                  ++ map called (read_frames (handle_frame on_trade on_book) peer.frames)
                else [])
      ]
