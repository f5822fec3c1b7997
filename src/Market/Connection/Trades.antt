-- ===== src/Market/Connection/Trades.antt =====
-- A round of the Binance client in which the exchange sends trades
-- (modules/market-feed/src/binance_client.cpp).
use lemuel_quant_core.Base.{
  ℕ, ◌≡◌, refl, ap, ap₂, Bool, true, ◌∙◌, Option, List, [], ◌∷◌, ◌++◌, map, All,
}
use lemuel_quant_core.Base.Bytes.{Bytes, lit}
use lemuel_quant_core.Base.Split.{Free}
use lemuel_quant_core.Feed.{Double}
use lemuel_quant_core.Feed.Reading.{
  Outcome, as_trade, read_frames, outcomes, until_thrown, read_frames-until_thrown,
}
use lemuel_quant_core.Market.Streams.{path}
use lemuel_quant_core.Market.Frames.{handle_frame}
use lemuel_quant_core.Market.Frames.Nested.{frame, Nested, handle_frame-frame}
use lemuel_quant_core.Market.Messages.{parse_trade}
use lemuel_quant_core.Market.Connection.{
  Options, Peer, connected, shook_hands, called, answer, run_round,
}

-- A trade that the exchange sends: the time at which it is read, the symbol, and what stands between the
-- braces of its object.
pub record Message : Type 0 where
  pub now : ℕ
  pub symbol : Bytes
  pub body : Bytes

pub record IsMessage (m : Message) : Type 0 where
  pub unquoted : Free 0x22 m.symbol
  pub single : Free b'@' m.symbol
  pub nested : Nested m.body

abbrev pub to_frame : Message → ℕ × Bytes
to_frame m = (m.now, frame m.symbol m.body)

module _ {ℓ} {D : Type ℓ} ⦃d : Double D⦄ (stoll : Bytes → Option ℕ) (peer : Peer D) where
  -- The trade that a message stands for.
  abbrev pub read_message : Message → Outcome D
  read_message m =
      as_trade (parse_trade stoll m.now (peer.fields (b'{' ∷ (m.body ++ lit "}"))) m.symbol)

  outcomes-messages :
      (on_book : Bool) (ms : List Message)
      → All IsMessage ms
      → outcomes (λ now sv. answer stoll peer now (handle_frame true on_book sv)) (map to_frame ms)
        ≡ map read_message ms
  unfolding answer
  outcomes-messages on_book [] h = refl
  outcomes-messages on_book (m ∷ ms) (v, h) =
      let e = handle_frame-frame on_book m.symbol m.body v.unquoted v.single v.nested in
      ap₂ ◌∷◌ (ap (answer stoll peer m.now) e) (outcomes-messages on_book ms h)

  -- If the exchange takes the connection and the path, and sends trades whose braces match and whose
  -- symbols have neither a quote nor an `@`: the round asks for the subscribed streams and hands every
  -- trade on, in their order, up to the first whose fields cannot be read.
  pub run_round-messages :
      (on_book : Bool) (options : Options) (ms : List Message)
      → All IsMessage ms
      → peer.frames ≡ map to_frame ms
      → peer.is_connected options.host options.port ≡ true
      → peer.is_accepted (path options.subscriptions) ≡ true
      → run_round stoll peer true on_book options
        ≡ connected options.host options.port
          ∷ (shook_hands options.host (path options.subscriptions)
              ∷ map called (until_thrown (map read_message ms)))
  unfolding run_round
  run_round-messages on_book options ms h e c a =
      let handle : ℕ → Bytes → Outcome D =
        λ now sv. answer stoll peer now (handle_frame true on_book sv) in
      let begin = λ (os : List (Outcome D)).
        connected options.host options.port
        ∷ (shook_hands options.host (path options.subscriptions) ∷ map called os) in
      rw (c, a)
        (ap begin (
          ap (read_frames handle) e
          ∙ read_frames-until_thrown handle (map to_frame ms)
          ∙ ap until_thrown (outcomes-messages on_book ms h)))
