-- ===== src/Market/Messages/Last.antt =====
-- A Binance trade by the last of each of its fields (modules/market-feed/src/binance_client.cpp).
use lemuel_quant_core.Base.{
  ℕ, ◌*◌, ◌≡◌, refl, ap, ◌∙◌, Option, Option-cases, inl, inr, none, some, ◌>>=◌, List, [], ◌∷◌,
}
use lemuel_quant_core.Base.Bytes.{Bytes, decimal}
use lemuel_quant_core.Feed.{Double, Side, Trade}
use lemuel_quant_core.Market.Messages.{
  Fields, field, Update, price, quantity, trade_id, exchange_ts_ns, side, nothing, apply, to_update,
  read_trade, new_trade, parse_trade,
}

module _ {ℓ} {D : Type ℓ} where
  -- What a field gives for each part of a trade.
  abbrev to_price : Update D → Option D
  to_price (price p) = some p
  to_price u = none

  abbrev to_quantity : Update D → Option D
  to_quantity (quantity q) = some q
  to_quantity u = none

  abbrev to_side : Update D → Option Side
  to_side (side s) = some s
  to_side u = none

  abbrev to_time : Update D → Option ℕ
  to_time (exchange_ts_ns ms) = some (ms * 1_000_000)
  to_time u = none

  abbrev to_id : Update D → Option Bytes
  to_id (trade_id n) = some (decimal n)
  to_id u = none

abbrev or_else {κ} : {X : Type κ} → Option X → X → X
or_else none x = x
or_else (some y) x = y

-- The last value that is there, or the default.
abbrev pub last {ℓ κ} : {A : Type ℓ} {X : Type κ} → (A → Option X) → List A → X → X
last pick [] x = x
last pick (a ∷ rest) x = last pick rest (or_else (pick a) x)

module _ {ℓ} {D : Type ℓ} where
  abbrev apply_all : List (Update D) → Trade D → Trade D
  apply_all [] t = t
  apply_all (u ∷ us) t = apply_all us (apply u t)

  -- The trade with the last of each part.
  abbrev pub latest : List (Update D) → Trade D → Trade D
  latest us t = record {
    symbol = t.symbol;
    price = last to_price us t.price;
    quantity = last to_quantity us t.quantity;
    side = last to_side us t.side;
    exchange_ts_ns = last to_time us t.exchange_ts_ns;
    local_ts_ns = t.local_ts_ns;
    trade_id = last to_id us t.trade_id;
  }

  latest-apply :
      (u : Update D) (us : List (Update D)) (t : Trade D)
      → latest us (apply u t) ≡ latest (u ∷ us) t
  latest-apply (price p) us t = refl
  latest-apply (quantity q) us t = refl
  latest-apply (trade_id n) us t = refl
  latest-apply (exchange_ts_ns ms) us t = refl
  latest-apply (side s) us t = refl
  latest-apply nothing us t = refl

  apply_all-latest : (us : List (Update D)) (t : Trade D) → apply_all us t ≡ latest us t
  apply_all-latest [] t = refl
  apply_all-latest (u ∷ us) t = apply_all-latest us (apply u t) ∙ latest-apply u us t

  bind_apply :
      (o : Option (List (Update D))) (u : Update D) (t : Trade D)
      → (o >>= (λ us. some (apply_all us (apply u t))))
        ≡ ((o >>= (λ us. some (u ∷ us))) >>= (λ us. some (apply_all us t)))
  bind_apply none u t = refl
  bind_apply (some us) u t = refl

  bind_latest :
      (o : Option (List (Update D))) (t : Trade D)
      → (o >>= (λ us. some (apply_all us t))) ≡ (o >>= (λ us. some (latest us t)))
  bind_latest none t = refl
  bind_latest (some us) t = ap some (apply_all-latest us t)

module _ {ℓ} {D : Type ℓ} ⦃d : Double D⦄ (stoll : Bytes → Option ℕ) where
  -- The fields as what they give, if none of them throws and the object is whole.
  abbrev pub updates : Fields D → Option (List (Update D))
  updates Fields.ended = some []
  updates Fields.broken = none
  updates (field key v fields) =
      to_update stoll key v >>= (λ u. updates fields >>= (λ us. some (u ∷ us)))

  read_trade-updates :
      (fields : Fields D) (t : Trade D)
      → read_trade stoll fields t ≡ (updates fields >>= (λ us. some (apply_all us t)))
  unfolding read_trade
  read_trade-updates Fields.ended t = refl
  read_trade-updates Fields.broken t = refl
  read_trade-updates (field key v fields) t = elim (Option-cases (to_update stoll key v)) [
    | inl n ↦ rw (n, read_trade, updates) refl
    | inr (u, e) ↦
        rw (e, read_trade, updates)
          (read_trade-updates fields (apply u t) ∙ bind_apply (updates fields) u t)
  ]

  -- A payload whose fields can all be read gives the trade with the symbol, the time of arrival, and for
  -- the price, the quantity, the side, the time and the number the last field that gives one, or the
  -- default if none does; any other payload throws.
  parse_trade-latest :
      (now : ℕ) (fields : Fields D) (symbol : Bytes)
      → parse_trade stoll now fields symbol
        ≡ (updates fields >>= (λ us. some (latest us (new_trade now symbol))))
  unfolding parse_trade
  parse_trade-latest now fields symbol =
      read_trade-updates fields (new_trade now symbol)
      ∙ bind_latest (updates fields) (new_trade now symbol)
