-- ===== src/Market/Connection.antt =====
-- One round of `BinanceClient::run_loop` (modules/market-feed/src/binance_client.cpp): the connection, the
-- path of the streams and the frames up to an exception. What the exchange sends, and what simdjson reads
-- in a payload, is the argument `Peer`.
pub mod Trades
use lemuel_quant_core.Base.{ℕ, Bool, true, Option, List, [], ◌∷◌, map, if◌then◌else◌}
use lemuel_quant_core.Base.Bytes.{Bytes, lit}
use lemuel_quant_core.Feed.{Double}
use lemuel_quant_core.Feed.Reading.{Outcome, ignored, as_trade, as_book, read_frames}
use lemuel_quant_core.Market.{Subscriptions}
use lemuel_quant_core.Market.Streams.{path}
use lemuel_quant_core.Market.Frames
use lemuel_quant_core.Market.Frames.{Call, handle_frame}
use lemuel_quant_core.Market.Messages.{Fields, parse_trade, parse_book}

-- `BinanceClient::Options`
pub record Options : Type 0 where
  pub host : Bytes
  pub port : Bytes
  pub subscriptions : Subscriptions
  pub reconnect : Bool
  -- in milliseconds
  pub reconnect_delay_ms : ℕ

abbrev pub default_options : Options
default_options = record {
  host = lit "stream.binance.com";
  port = lit "9443";
  subscriptions = record { trade_symbols = []; book_symbols = []; book_depth = 20 };
  reconnect = true;
  reconnect_delay_ms = 1000;
}

pub record Peer {ℓ} (D : Type ℓ) : Type ℓ where
  -- do the connection to a host and a port, and the handshake for TLS, succeed?
  pub is_connected : Bytes → Bytes → Bool
  -- does the handshake for a path succeed?
  pub is_accepted : Bytes → Bool
  -- the frames that are read until a read throws or the client is stopped, with their times
  pub frames : List (ℕ × Bytes)
  -- the fields of a payload
  pub fields : Bytes → Fields D

pub data Action {ℓ} (D : Type ℓ) : Type ℓ where
  connected : Bytes → Bytes → Action D
  shook_hands : Bytes → Bytes → Action D
  called : Outcome D → Action D

module _ {ℓ} {D : Type ℓ} ⦃d : Double D⦄ (stoll : Bytes → Option ℕ) (peer : Peer D) where
  -- The call that a frame leads to, with its parser.
  abbrev pub answer : ℕ → Call → Outcome D
  unfolding parse_trade parse_book
  answer now Frames.ignored = ignored
  answer now (Frames.trade payload symbol) =
      as_trade (parse_trade stoll now (peer.fields payload) symbol)
  answer now (Frames.book payload symbol) =
      as_book (parse_book stoll now (peer.fields payload) symbol)

  -- Both handlers are set or not.
  unfoldable pub run_round : Bool → Bool → Options → List (Action D)
  unfolding read_frames handle_frame path
  run_round on_trade on_book options =
      let target = path options.subscriptions in
      connected options.host options.port
      ∷ (if peer.is_connected options.host options.port
          then shook_hands options.host target
            ∷ (if peer.is_accepted target
                then map called (
                    read_frames (λ now sv. answer now (handle_frame on_trade on_book sv))
                      peer.frames)
                else [])
          else [])
