-- ===== src/Market/Messages.antt =====
-- `parse_trade` and `parse_book` (modules/market-feed/src/binance_client.cpp), with and without simdjson.
-- An object is the sequence of its fields, which may break with an exception; an integer is one that is not
-- negative, and its product with a million one below 2 ^ 63. The clock and `std::stoll` are arguments.
-- `Side{}`, which is no enumerator, is `sell`: all code asks only whether a side is `Buy`.
pub mod Last
use lemuel_quant_core.Base.{
  ℕ, ◌*◌, Bool, true, false, ◌||◌, Option, none, some, ◌>>=◌, List, [], ◌∷◌, ◌++◌, if◌then◌else◌,
}
use lemuel_quant_core.Base.Bytes.{Bytes, lit, bytes_eq, is_empty, decimal}
use lemuel_quant_core.Feed.{Double, Side, buy, sell, Trade, PriceLevel, OrderBook}

-- A text, a number as a double and as an integer where it is one, a truth value, or another value.
pub data Scalar {ℓ} (D : Type ℓ) : Type ℓ where
  text : Bytes → Scalar D
  number : Option D → Option ℕ → Scalar D
  truth : Bool → Scalar D
  other : Scalar D

-- The elements of an array of arrays.
pub data Levels {ℓ} (D : Type ℓ) : Type ℓ where
  ended broken : Levels D
  level : List (Scalar D) → Levels D → Levels D

pub data Value {ℓ} (D : Type ℓ) : Type ℓ where
  scalar : Scalar D → Value D
  array : Levels D → Value D

pub data Fields {ℓ} (D : Type ℓ) : Type ℓ where
  ended broken : Fields D
  field : Bytes → Value D → Fields D → Fields D

-- What one field does to a trade.
pub data Update {ℓ} (D : Type ℓ) : Type ℓ where
  price quantity : D → Update D
  trade_id exchange_ts_ns : ℕ → Update D
  side : Side → Update D
  nothing : Update D

module _ {ℓ} {D : Type ℓ} where
  abbrev pub apply : Update D → Trade D → Trade D
  apply (price p) t = record t { price = p }
  apply (quantity q) t = record t { quantity = q }
  apply (trade_id n) t = record t { trade_id = decimal n }
  apply (exchange_ts_ns ms) t = record t { exchange_ts_ns = ms * 1_000_000 }
  apply (side s) t = record t { side = s }
  apply nothing t = t

  -- `get_bool`
  abbrev maker_side : Value D → Update D
  maker_side (scalar (truth true)) = side sell
  maker_side (scalar (truth false)) = side buy
  maker_side v = nothing

module _ {ℓ} {D : Type ℓ} ⦃d : Double D⦄ where
  open d use {nought}

  -- What the parsers start from.
  abbrev pub new_trade : ℕ → Bytes → Trade D
  new_trade now symbol = record {
    symbol = symbol;
    price = nought;
    quantity = nought;
    side = sell;
    exchange_ts_ns = 0;
    local_ts_ns = now;
    trade_id = [];
  }

  abbrev new_book : ℕ → Bytes → OrderBook D
  new_book now symbol = record {
    symbol = symbol;
    bids = [];
    asks = [];
    exchange_ts_ns = 0;
    local_ts_ns = now;
  }

module _ {ℓ} {D : Type ℓ} ⦃d : Double D⦄ (stoll : Bytes → Option ℕ) where
  open d use {nought, stod}

  abbrev sj_double : Value D → Option D
  sj_double (scalar (text s)) = if is_empty s then some nought else stod s
  sj_double (scalar (number (some x) i)) = some x
  sj_double v = some nought

  abbrev sj_int : Value D → Option ℕ
  sj_int (scalar (text s)) = if is_empty s then some 0 else stoll s
  sj_int (scalar (number x (some i))) = some i
  sj_int v = some 0

  -- The chain of tests of the key; `none` is an exception.
  abbrev pub to_update : Bytes → Value D → Option (Update D)
  to_update key v =
      if bytes_eq key (lit "p")
      then sj_double v >>= (λ x. some (price x))
      else if bytes_eq key (lit "q")
      then sj_double v >>= (λ x. some (quantity x))
      else if bytes_eq key (lit "t")
      then sj_int v >>= (λ n. some (trade_id n))
      else if bytes_eq key (lit "T")
      then sj_int v >>= (λ n. some (exchange_ts_ns n))
      else if bytes_eq key (lit "m")
      then some (maker_side v)
      else some nothing

  -- The loop over the fields.
  unfoldable pub read_trade : Fields D → Trade D → Option (Trade D)
  read_trade Fields.ended t = some t
  read_trade Fields.broken t = none
  read_trade (field key v fields) t = to_update key v >>= (λ u. read_trade fields (apply u t))

  unfoldable pub parse_trade : ℕ → Fields D → Bytes → Option (Trade D)
  unfolding read_trade
  parse_trade now fields symbol = read_trade fields (new_trade now symbol)

  -- A level has what of its price and quantity is there.
  abbrev read_level : List (Scalar D) → Option (PriceLevel D)
  read_level [] = some (record { price = nought; quantity = nought })
  read_level (p ∷ []) =
      sj_double (scalar p) >>= (λ x. some (record { price = x; quantity = nought }))
  read_level (p ∷ q ∷ more) =
      sj_double (scalar p)
      >>= (λ x. sj_double (scalar q) >>= (λ y. some (record { price = x; quantity = y })))

  abbrev pub read_levels : Levels D → List (PriceLevel D) → Option (List (PriceLevel D))
  read_levels Levels.ended dst = some dst
  read_levels Levels.broken dst = none
  read_levels (level l rest) dst = read_level l >>= (λ lvl. read_levels rest (dst ++ lvl ∷ []))

  -- `get_array` throws for another value.
  abbrev read_side : Value D → List (PriceLevel D) → Option (List (PriceLevel D))
  read_side (scalar v) dst = none
  read_side (array levels) dst = read_levels levels dst

  unfoldable read_book : Fields D → OrderBook D → Option (OrderBook D)
  read_book Fields.ended ob = some ob
  read_book Fields.broken ob = none
  read_book (field key v fields) ob =
      if bytes_eq key (lit "lastUpdateId")
      then sj_int v >>= (λ n. read_book fields (record ob { exchange_ts_ns = n }))
      else if bytes_eq key (lit "bids")
      then read_side v ob.bids >>= (λ l. read_book fields (record ob { bids = l }))
      else if bytes_eq key (lit "asks")
      then read_side v ob.asks >>= (λ l. read_book fields (record ob { asks = l }))
      else read_book fields ob

  unfoldable pub parse_book : ℕ → Fields D → Bytes → Option (OrderBook D)
  unfolding read_book
  parse_book now fields symbol = read_book fields (new_book now symbol)

module _ {ℓ} {D : Type ℓ} ⦃d : Double D⦄ where
  open d use {nought}

  -- Without simdjson no field is read.
  unfoldable parse_trade_fallback : ℕ → Bytes → Trade D
  parse_trade_fallback now symbol = record {
    symbol = symbol;
    price = nought;
    quantity = nought;
    side = buy;
    exchange_ts_ns = 0;
    local_ts_ns = now;
    trade_id = [];
  }

  unfoldable parse_book_fallback : ℕ → Bytes → OrderBook D
  parse_book_fallback now symbol = record {
    symbol = symbol;
    bids = [];
    asks = [];
    exchange_ts_ns = 0;
    local_ts_ns = now;
  }
