-- ===== src/Stock/Kis/Connection/Trades.antt =====
-- A round of the KIS client in which the server sends trades between its answers
-- (modules/stock-feed/src/kis_client.cpp).
use lemuel_quant_core.Base.{
  ℕ, ◌≡◌, refl, ap, ap₂, ◌∙◌, Bool, true, false, Bool-cases, inl, inr, List, [], ◌∷◌, ◌++◌, map,
  All,
}
use lemuel_quant_core.Base.Bytes.{Bytes, lit, is_empty}
use lemuel_quant_core.Base.Split.{Free}
use lemuel_quant_core.Feed.{Double}
use lemuel_quant_core.Feed.Reading.{
  Outcome, ignored, read_frames, outcomes, until_thrown, read_frames-until_thrown,
}
use lemuel_quant_core.Stock.Kis.{
  Credentials, authenticate, subscribe_all, send_sub, handle_frame, as_trade, trade_of_fields,
}
use lemuel_quant_core.Stock.Kis.Frames.{payload, frame, OpensData, handle_frame_trade}
use lemuel_quant_core.Stock.Kis.Connection.{
  Peer, Action, posted, opened, sent, called, post_all, approval_key, ws_port, run_round,
}

-- An answer of the server in JSON, behind its brace, or a trade: the flag, the count, the symbol, the
-- second field and the others.
pub data Message : Type 0 where
  answer : ℕ → Bytes → Message
  trade : ℕ → Bytes → Bytes → Bytes → Bytes → List Bytes → Message

abbrev pub IsMessage : Message → Type 0
IsMessage (answer now text) = Unit
IsMessage (trade now flag count symbol field fields) =
    OpensData flag
    × All (Free b'^') (symbol ∷ field ∷ fields)
    × All (Free b'|') (flag ∷ lit "H0STCNT0" ∷ count ∷ payload symbol field fields ∷ [])

abbrev pub to_frame : Message → ℕ × Bytes
to_frame (answer now text) = (now, b'{' ∷ text)
to_frame (trade now flag count symbol field fields) =
    (now, frame flag (lit "H0STCNT0") count (payload symbol field fields))

module _ {ℓ} {D : Type ℓ} ⦃d : Double D⦄ where
  -- What a message says.
  abbrev pub read_message : Message → Outcome D
  read_message (answer now text) = ignored
  read_message (trade now flag count symbol field fields) =
      as_trade (trade_of_fields now symbol (symbol ∷ field ∷ fields))

  outcomes-messages :
      (on_book : Bool) (ms : List Message)
      → All IsMessage ms
      → outcomes (handle_frame {D = D} true on_book) (map to_frame ms) ≡ map read_message ms
  unfolding handle_frame
  outcomes-messages on_book [] h = refl
  outcomes-messages on_book (answer now text ∷ ms) (v, h) =
      ap (◌∷◌ ignored) (outcomes-messages on_book ms h)
  outcomes-messages on_book (trade now flag count symbol field fields ∷ ms) ((o, f, b), h) =
      ap₂ ◌∷◌ (handle_frame_trade on_book now flag count symbol field fields o f b)
        (outcomes-messages on_book ms h)

  -- What a round does whose frames lead to these outcomes.
  abbrev pub round_of :
      Credentials → List Bytes → List Bytes → Peer → List (Outcome D) → List (Action D)
  round_of creds trade_symbols book_symbols peer os =
      let key = approval_key peer (authenticate creds) in
      post_all (authenticate creds)
      ++ opened (lit "ops.koreainvestment.com") (ws_port creds)
        ∷ (map sent (
              map (send_sub key (lit "H0STCNT0")) trade_symbols
              ++ map (send_sub key (lit "H0STASP0")) book_symbols)
            ++ map called os)

  pub run_round-round_of :
      (on_book : Bool) (creds : Credentials) (trade_symbols book_symbols : List Bytes) (peer : Peer)
      (ms : List Message)
      → All IsMessage ms
      → peer.frames ≡ map to_frame ms
      → peer.is_connected ≡ true
      → is_empty (approval_key peer (authenticate creds)) ≡ false
      → run_round {D = D} true on_book creds trade_symbols book_symbols peer
        ≡ round_of creds trade_symbols book_symbols peer (until_thrown (map read_message ms))
  unfolding run_round subscribe_all
  run_round-round_of on_book creds trade_symbols book_symbols peer ms h e c k =
      let handle : ℕ → Bytes → Outcome D = handle_frame true on_book in
      rw (k, c)
        (ap (round_of creds trade_symbols book_symbols peer) (
          ap (read_frames handle) e
          ∙ read_frames-until_thrown handle (map to_frame ms)
          ∙ ap until_thrown (outcomes-messages on_book ms h)))

-- The servers of the two modes, of the paper account and of the live one.
abbrev rest_server : Bool → Bytes
rest_server true = lit "https://openapivts.koreainvestment.com:29443"
rest_server false = lit "https://openapi.koreainvestment.com:9443"

abbrev socket_port : Bool → Bytes
socket_port true = lit "31000"
socket_port false = lit "21000"

-- What asks for a token; the name of the secret differs between the two.
abbrev token_request : Bytes → Credentials → Bytes
token_request secret_name creds =
    lit "{\"grant_type\":\"client_credentials\",\"appkey\":\""
    ++ creds.app_key
    ++ lit "\","
    ++ (lit "\"" ++ secret_name ++ lit "\":\"")
    ++ creds.app_secret
    ++ lit "\"}"

-- First for the access token, then for the approval key.
abbrev token_requests : Credentials → List (Bytes × Bytes)
token_requests creds =
    (rest_server creds.paper ++ lit "/oauth2/tokenP", token_request (lit "appsecret") creds)
    ∷ (rest_server creds.paper ++ lit "/oauth2/Approval", token_request (lit "secretkey") creds)
    ∷ []

authenticate-token_requests : (creds : Credentials) → authenticate creds ≡ token_requests creds
unfolding authenticate
authenticate-token_requests creds = elim (Bool-cases creds.paper) [
  | inl t ↦ rw (t, authenticate) refl
  | inr f ↦ rw (f, authenticate) refl
]

ws_port-socket_port : (creds : Credentials) → ws_port creds ≡ socket_port creds.paper
ws_port-socket_port creds = elim (Bool-cases creds.paper) [ inl t ↦ rw t refl | inr f ↦ rw f refl ]

-- The key that the server answers to the second request.
abbrev given_key : Credentials → Peer → Bytes
given_key creds peer =
    peer.sj_get_string
      (peer.http_post (rest_server creds.paper ++ lit "/oauth2/Approval")
        (token_request (lit "secretkey") creds))
      (lit "approval_key")

module _ {ℓ} {D : Type ℓ} ⦃d : Double D⦄ where
  abbrev pub trading_round :
      Credentials → List Bytes → List Bytes → Peer → List (Outcome D) → List (Action D)
  trading_round creds trade_symbols book_symbols peer os =
      let key = given_key creds peer in
      posted (rest_server creds.paper ++ lit "/oauth2/tokenP")
        (token_request (lit "appsecret") creds)
      ∷ posted (rest_server creds.paper ++ lit "/oauth2/Approval")
          (token_request (lit "secretkey") creds)
      ∷ opened (lit "ops.koreainvestment.com") (socket_port creds.paper)
      ∷ (map sent (
            map (send_sub key (lit "H0STCNT0")) trade_symbols
            ++ map (send_sub key (lit "H0STASP0")) book_symbols)
          ++ map called os)

  round_of-trading_round :
      (creds : Credentials) (trade_symbols book_symbols : List Bytes) (peer : Peer)
      (os : List (Outcome D))
      → round_of creds trade_symbols book_symbols peer os
        ≡ trading_round creds trade_symbols book_symbols peer os
  round_of-trading_round creds trade_symbols book_symbols peer os =
      let begun : List (Bytes × Bytes) → Bytes → List (Action D) = λ requests port.
        post_all requests
        ++ opened (lit "ops.koreainvestment.com") port
          ∷ (map sent (
                map (send_sub (approval_key peer requests) (lit "H0STCNT0")) trade_symbols
                ++ map (send_sub (approval_key peer requests) (lit "H0STASP0")) book_symbols)
              ++ map called os) in
      ap₂ begun (authenticate-token_requests creds) (ws_port-socket_port creds)

  -- If the server gives an approval key and takes the connection, and sends its answers and trades whose
  -- fields hold no delimiter: the round asks the server of the account's mode for the access token and for
  -- the approval key, in this order, opens the port of that mode, subscribes to every trade symbol and then
  -- to every book symbol with that key, and hands every trade on, in their order, up to the first that
  -- cannot be read.
  pub run_round-trades :
      (on_book : Bool) (creds : Credentials) (trade_symbols book_symbols : List Bytes) (peer : Peer)
      (ms : List Message)
      → All IsMessage ms
      → peer.frames ≡ map to_frame ms
      → peer.is_connected ≡ true
      → is_empty (given_key creds peer) ≡ false
      → run_round {D = D} true on_book creds trade_symbols book_symbols peer
        ≡ trading_round creds trade_symbols book_symbols peer (until_thrown (map read_message ms))
  run_round-trades on_book creds trade_symbols book_symbols peer ms h e c k =
      let requests = authenticate-token_requests creds in
      run_round-round_of on_book creds trade_symbols book_symbols peer ms h e c
        (ap (λ rs. is_empty (approval_key peer rs)) requests ∙ k)
      ∙ round_of-trading_round creds trade_symbols book_symbols peer
          (until_thrown (map read_message ms))
