-- ===== src/Stock/Kis.antt =====
-- The KIS client, modules/stock-feed/src/kis_client.cpp: the messages that it builds, the two
-- payload parsers and the handling of one frame. `none` is an exception, as `std::stod` throws it.
pub mod Levels
pub mod Frames
pub mod Connection
pub use lemuel_quant_core.Feed.Reading.{Outcome, ignored, traded, booked, thrown, as_trade, as_book}
use lemuel_quant_core.Base.{
  ℕ, ◌+◌, Bool, true, false, ◌&&◌, Option, none, some, List, [], ◌∷◌, ◌++◌, map, ltb, leb, ◌==◌,
  if◌then◌else◌, length, get_or, zero, suc,
}
use lemuel_quant_core.Base.Bytes.{Bytes, lit, bytes_eq, is_empty, find, substr}
use lemuel_quant_core.Base.Split.{split}
use lemuel_quant_core.Feed.{Double, Side, buy, sell, Trade, PriceLevel, OrderBook}

pub record Credentials : Type 0 where
  pub app_key : Bytes
  pub app_secret : Bytes
  pub paper : Bool

-- The two requests of `authenticate`: url and body. The answers are the server's, and each token is
-- what the JSON library finds in one.
unfoldable pub authenticate : Credentials → List (Bytes × Bytes)
authenticate creds =
    let base =
      if creds.paper
      then lit "https://openapivts.koreainvestment.com:29443"
      else lit "https://openapi.koreainvestment.com:9443" in
    (
      base ++ lit "/oauth2/tokenP",
      lit "{\"grant_type\":\"client_credentials\","
          ++ lit "\"appkey\":\""
          ++ creds.app_key
          ++ lit "\","
          ++ lit "\"appsecret\":\""
          ++ creds.app_secret
          ++ lit "\"}",
    )
    ∷ (
      base ++ lit "/oauth2/Approval",
      lit "{\"grant_type\":\"client_credentials\","
          ++ lit "\"appkey\":\""
          ++ creds.app_key
          ++ lit "\","
          ++ lit "\"secretkey\":\""
          ++ creds.app_secret
          ++ lit "\"}",
    )
    ∷ []

-- `send_sub`: the message that subscribes to one symbol.
abbrev pub send_sub : Bytes → Bytes → Bytes → Bytes
send_sub approval_key tr_id sym =
    lit "{\"header\":{\"approval_key\":\""
    ++ approval_key
    ++ lit "\",\"custtype\":\"P\",\"tr_type\":\"1\","
    ++ lit "\"content-type\":\"utf-8\"},"
    ++ lit "\"body\":{\"input\":{\"tr_id\":\""
    ++ tr_id
    ++ lit "\",\"tr_key\":\""
    ++ sym
    ++ lit "\"}}}"

-- What a session sends once it is connected: nothing without an approval key, for `run_loop` throws.
unfoldable pub subscribe_all : Bytes → List Bytes → List Bytes → Option (List Bytes)
subscribe_all approval_key trade_symbols book_symbols =
    if is_empty approval_key
    then none
    else some (
        map (send_sub approval_key (lit "H0STCNT0")) trade_symbols
        ++ map (send_sub approval_key (lit "H0STASP0")) book_symbols)

module _ {ℓ} {D : Type ℓ} ⦃d : Double D⦄ where
  open d use {nought, is_positive, stod}

  -- `td`.
  abbrev pub to_double : Bytes → Option D
  to_double s = if is_empty s then some nought else stod s

  abbrev trade_of : ℕ → Bytes → List Bytes → D → D → Trade D
  trade_of now symbol f price quantity = record {
    symbol = symbol;
    price = price;
    quantity = quantity;
    side = if bytes_eq (get_or f 21 []) (lit "5") then sell else buy;
    exchange_ts_ns = 0;
    local_ts_ns = now;
    trade_id = [];
  }

  -- From the fields on.
  abbrev pub trade_of_fields : ℕ → Bytes → List Bytes → Option (Trade D)
  trade_of_fields now symbol f = elim (to_double (get_or f 2 [])) [
    | none ↦ none
    | some price ↦ elim (to_double (get_or f 12 [])) [
      | none ↦ none
      | some quantity ↦ some (trade_of now symbol f price quantity)
    ]
  ]

  unfoldable pub parse_h0stcnt0 : ℕ → Bytes → Bytes → Option (Trade D)
  parse_h0stcnt0 now msg symbol = trade_of_fields now symbol (split b'^' msg)

  -- The quantity of a level: `none` in the outer sense if `stod` throws.
  abbrev pub quantity_at : List Bytes → ℕ → Option D
  quantity_at f j = if ltb j (length f) then to_double (get_or f j []) else some nought

  abbrev pub push_level : D → D → List (PriceLevel D) → List (PriceLevel D)
  push_level price quantity rest =
      if is_positive price then record { price = price; quantity = quantity } ∷ rest else rest

  -- One round: the price and the quantity are read, and the level is kept if its price is positive.
  abbrev pub add_level :
      Option D → Option D → Option (List (PriceLevel D)) → Option (List (PriceLevel D))
  add_level price quantity rest = elim price [
    | none ↦ none
    | some p ↦ elim quantity [
      | none ↦ none
      | some q ↦ elim rest [ none ↦ none | some levels ↦ some (push_level p q levels) ]
    ]
  ]

  -- for (i = 0; i < 10 && prices + i < f.size(); ++i) …: the first argument counts the rounds left,
  -- the next two are the indices of this round's price and quantity.
  unfoldable pub read_levels : ℕ → ℕ → ℕ → List Bytes → Option (List (PriceLevel D))
  read_levels zero price_at qty_at f = some []
  read_levels (suc n) price_at qty_at f =
      let rest = read_levels n (price_at + 1) (qty_at + 1) f in
      if ltb price_at (length f)
      then add_level (to_double (get_or f price_at [])) (quantity_at f qty_at) rest
      else some []

  unfoldable pub parse_h0stasp0 : ℕ → Bytes → Bytes → Option (OrderBook D)
  parse_h0stasp0 now msg symbol =
      let f = split b'^' msg in
      elim (read_levels 10 3 23 f) [
        | none ↦ none
        | some asks ↦ elim (read_levels 10 13 33 f) [
          | none ↦ none
          | some bids ↦ some (record {
            symbol = symbol;
            bids = bids;
            asks = asks;
            exchange_ts_ns = 0;
            local_ts_ns = now;
          })
        ]
      ]

abbrev pub begins_with_brace : Bytes → Bool
begins_with_brace [] = false
begins_with_brace (c ∷ s) = c == b'{'

module _ {ℓ} {D : Type ℓ} ⦃d : Double D⦄ where
  -- The payload of a data frame, by its transaction id; both handlers are set or not.
  abbrev pub dispatch : Bool → Bool → ℕ → Bytes → Bytes → Outcome D
  dispatch on_trade on_book now tr_id payload = elim (find (lit "^") payload) [
    | none ↦ ignored
    | some sym_end ↦
        let symbol = substr payload 0 sym_end in
        if bytes_eq tr_id (lit "H0STCNT0") && on_trade
        then as_trade (parse_h0stcnt0 now payload symbol)
        else if bytes_eq tr_id (lit "H0STASP0") && on_book
        then as_book (parse_h0stasp0 now payload symbol)
        else ignored
  ]

  -- The body of the reading loop of `run_loop`.
  unfoldable pub handle_frame : Bool → Bool → ℕ → Bytes → Outcome D
  handle_frame on_trade on_book now sv =
      let parts = split b'|' sv in
      if is_empty sv
      then ignored
      else if begins_with_brace sv
      then ignored
      else if ltb (length parts) 4
      then ignored
      else dispatch on_trade on_book now (get_or parts 1 []) (get_or parts 3 [])
