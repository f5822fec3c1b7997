-- ===== src/Dwh/Ingest/Published.antt =====
-- What the warehouse reads of a trade that the stock feed publishes: modules/stock-feed/src/main.cpp
-- and modules/data-warehouse/src/main.cpp, which agree on the text alone.
use lemuel_quant_core.Base.{
  ℕ, ◌≡◌, refl, some, List, [], ◌∷◌, ◌++◌, All, ◌≢◌, true, false, Bool, if◌then◌else◌, ap, ◌∙◌,
  arith,
}
use lemuel_quant_core.Base.Bytes.{Bytes, lit, decimal}
use lemuel_quant_core.Base.Split.{Free}
use lemuel_quant_core.Base.Find.{cut-Free, is_free→Free}
use lemuel_quant_core.Base.After.{
  After, After-append, After-cons, is_clear, After-append_clear, starts_with_quoted,
}
use lemuel_quant_core.Feed.{Double, Trade}
use lemuel_quant_core.Stock.Supervise.{is_side_buy, trade_to_json, on_trade}
use lemuel_quant_core.Dwh.{Row}
use lemuel_quant_core.Dwh.Store.{append}
use lemuel_quant_core.Dwh.Ingest.{skip_lead, until_end, gets, getd, trade_to_row, on_message}

-- A byte that `getd` neither skips nor stops at.
abbrev pub Solid : Bytes → Type 0
Solid = All (λ c. (c ≢ 0x20) × (c ≢ 0x22) × (c ≢ 0x2C) × (c ≢ 0x7D))

until_end-Solid : (v rest : Bytes) → Solid v → until_end (v ++ 0x2C ∷ rest) ≡ v
until_end-Solid [] rest h = refl
until_end-Solid (c ∷ v) rest ((a, b, n, m), h) = ground (arith, until_end-Solid v rest h)

skip_lead-Solid : (v rest : Bytes) → Solid v → skip_lead (v ++ 0x2C ∷ rest) ≡ v ++ 0x2C ∷ rest
skip_lead-Solid [] rest h = refl
skip_lead-Solid (c ∷ v) rest ((a, b, n, m), h) = ground arith

Solid→Free : (v : Bytes) → Solid v → Free 0x22 v
Solid→Free [] h = tt
Solid→Free (c ∷ v) ((a, b, n, m), h) = (b, Solid→Free v h)

module _ {ℓ} {D : Type ℓ} ⦃d : Double D⦄ where
  open d use {print, stod}

  -- A number behind its key, up to a comma.
  getd-After :
      (key json v rest : Bytes)
      → Solid v
      → After (lit "\"" ++ key ++ lit "\":") json (v ++ 0x2C ∷ rest)
      → getd {D = D} json key ≡ stod v
  unfolding getd
  getd-After key json v rest h a =
      rw (a.found, getd)
        (ap (λ s. stod (until_end (skip_lead s))) a.rest
          ∙ ap (λ s. stod (until_end s)) (skip_lead-Solid v rest h)
          ∙ ap stod (until_end-Solid v rest h))

  -- A published trade: what both feeds write, and what stands behind the time of arrival.
  module _ (t : Trade D) (tail : Bytes) where
    abbrev behind_side : Bytes
    behind_side =
        (if is_side_buy t.side then lit "1" else lit "2")
        ++ (lit ","
            ++ (lit "\"ex_ts\":"
                ++ (decimal t.exchange_ts_ns
                    ++ (lit "," ++ (lit "\"local_ts\":" ++ (decimal t.local_ts_ns ++ tail))))))

    abbrev behind_quantity : Bytes
    behind_quantity = print t.quantity ++ (lit "," ++ (lit "\"side\":" ++ behind_side))

    abbrev behind_price : Bytes
    behind_price = print t.price ++ (lit "," ++ (lit "\"qty\":" ++ behind_quantity))

    abbrev behind_symbol : Bytes
    behind_symbol = lit "\"," ++ (lit "\"price\":" ++ behind_price)

    abbrev trade_text : Bytes
    trade_text = lit "{\"symbol\":\"" ++ (t.symbol ++ behind_symbol)

  module _ (solid : (x : D) → Solid (print x)) (t : Trade D) (tail : Bytes)
      (f : Free 0x22 t.symbol) where
    gets-symbol : gets (trade_text t tail) (lit "symbol") ≡ t.symbol
    unfolding gets
    gets-symbol = cut-Free 0x22 (lit "{\"symbol\":\"") t.symbol _ f

    -- Past the symbol, for a key of another field.
    After-symbol :
        (key v : Bytes)
        → Free 0x22 key
        → is_clear
            (lit "\"" ++ key ++ lit "\":")
            (lit "{\"symbol\":")
            (lit "\"" ++ (t.symbol ++ (behind_symbol t tail)))
          ≡ true
        → After (lit "\"" ++ key ++ lit "\":") (behind_symbol t tail) v
        → After (lit "\"" ++ key ++ lit "\":") (trade_text t tail) v
    After-symbol key v k c a =
        After-append_clear (lit "\"" ++ key ++ lit "\":") (lit "{\"symbol\":")
          (lit "\"" ++ (t.symbol ++ (behind_symbol t tail))) v c
          (After-cons (lit "\"" ++ key ++ lit "\":") (t.symbol ++ (behind_symbol t tail)) v 0x22
            (starts_with_quoted 0x22 0x3A 0x2C key [] t.symbol
              (lit "\"price\":" ++ (behind_price t tail)) (λ e. omega arith) k f)
            (After-append 0x22 (key ++ lit "\":") t.symbol (behind_symbol t tail) v f a))

    getd-price : getd {D = D} (trade_text t tail) (lit "price") ≡ stod (print t.price)
    getd-price =
        let k = lit "\"price\":" in
        let rest = lit "\"qty\":" ++ (behind_quantity t tail) in
        let v = print t.price ++ 0x2C ∷ rest in
        let here : After k (k ++ v) v = record { at = 0; found = refl; rest = refl } in
        getd-After (lit "price") (trade_text t tail) (print t.price) rest (solid t.price) (
          After-symbol (lit "price") v (is_free→Free 0x22 (lit "price") refl) refl
            (After-append_clear k (lit "\",") (k ++ v) v refl here))

    getd-qty : getd {D = D} (trade_text t tail) (lit "qty") ≡ stod (print t.quantity)
    getd-qty =
        let k = lit "\"qty\":" in
        let rest = lit "\"side\":" ++ (behind_side t tail) in
        let v = print t.quantity ++ 0x2C ∷ rest in
        let here : After k (k ++ v) v = record { at = 0; found = refl; rest = refl } in
        getd-After (lit "qty") (trade_text t tail) (print t.quantity) rest (solid t.quantity) (
          After-symbol (lit "qty") v (is_free→Free 0x22 (lit "qty") refl) refl (
            After-append_clear k (lit "\",\"price\":") (behind_price t tail) v refl (
              After-append 0x22 (lit "qty\":") (print t.price) (lit "," ++ (k ++ v)) v
                (Solid→Free (print t.price) (solid t.price))
                (After-append_clear k (lit ",") (k ++ v) v refl here))))

    side_text : Bytes
    side_text = if is_side_buy t.side then lit "1" else lit "2"

    side_text-Solid : (b : Bool) → Solid (if b then lit "1" else lit "2")
    side_text-Solid true =
        ((λ e. omega arith, λ e. omega arith, λ e. omega arith, λ e. omega arith), tt)
    side_text-Solid false =
        ((λ e. omega arith, λ e. omega arith, λ e. omega arith, λ e. omega arith), tt)

    getd-side : getd {D = D} (trade_text t tail) (lit "side") ≡ stod side_text
    unfolding side_text
    getd-side =
        let k = lit "\"side\":" in
        let rest =
          lit "\"ex_ts\":"
          ++ (decimal t.exchange_ts_ns
              ++ (lit "," ++ (lit "\"local_ts\":" ++ (decimal t.local_ts_ns ++ tail)))) in
        let v = side_text ++ 0x2C ∷ rest in
        let here : After k (k ++ v) v = record { at = 0; found = refl; rest = refl } in
        getd-After (lit "side") (trade_text t tail) side_text rest
          (side_text-Solid (is_side_buy t.side))
          (After-symbol (lit "side") v (is_free→Free 0x22 (lit "side") refl) refl (
            After-append_clear k (lit "\",\"price\":") (behind_price t tail) v refl (
              After-append 0x22 (lit "side\":") (print t.price)
                (lit "," ++ (lit "\"qty\":" ++ (behind_quantity t tail))) v
                (Solid→Free (print t.price) (solid t.price))
                (After-append_clear k (lit ",\"qty\":") (behind_quantity t tail) v refl (
                  After-append 0x22 (lit "side\":") (print t.quantity) (lit "," ++ (k ++ v)) v
                    (Solid→Free (print t.quantity) (solid t.quantity))
                    (After-append_clear k (lit ",") (k ++ v) v refl here))))))

  -- What the warehouse keeps of a published trade.
  abbrev pub published_row : ℕ → Bytes → Trade D → D → D → D → Row D
  published_row now name t price quantity side = record {
    ts_ns = now;
    channel = lit "trade";
    tags = (lit "channel", name) ∷ (lit "symbol", t.symbol) ∷ [];
    values = (lit "price", price) ∷ (lit "qty", quantity) ∷ (lit "side", side) ∷ [];
  }

  pub trade_to_row-trade_text :
      (now : ℕ) (name : Bytes) (t : Trade D) (tail : Bytes) (price quantity side : D)
      → ((x : D) → Solid (print x))
      → Free 0x22 t.symbol
      → stod (print t.price) ≡ some price
      → stod (print t.quantity) ≡ some quantity
      → stod (if is_side_buy t.side then lit "1" else lit "2") ≡ some side
      → trade_to_row now name (trade_text t tail)
        ≡ some (published_row now name t price quantity side)
  unfolding trade_to_row side_text
  trade_to_row-trade_text now name t tail price quantity side solid f ep eq es =
      rw
        (
          getd-price solid t tail f ∙ ep,
          getd-qty solid t tail f ∙ eq,
          getd-side solid t tail f ∙ es,
          gets-symbol solid t tail f,
        )
        refl

  -- A trade that the stock feed publishes is read back by the warehouse: if the symbol has no quote,
  -- numbers are printed without blanks, quotes, commas and closing braces, and what is printed for the
  -- price, the quantity and the side is read as three numbers, then exactly one row is appended, which
  -- stands on the channel of trades, has the time at which it was read, and holds the channel of the
  -- publication, the symbol and these numbers.
  pub on_message-on_trade :
      (now : ℕ) (t : Trade D) (store : List (Bytes × List (Row D))) (price quantity side : D)
      → ((x : D) → Solid (print x))
      → Free 0x22 t.symbol
      → stod (print t.price) ≡ some price
      → stod (print t.quantity) ≡ some quantity
      → stod (if is_side_buy t.side then lit "1" else lit "2") ≡ some side
      → on_message now (on_trade t) store
        ≡ some (
            append
              (record {
                ts_ns = now;
                channel = lit "trade";
                tags =
                    (lit "channel", lit "trade.kis." ++ t.symbol) ∷ (lit "symbol", t.symbol) ∷ [];
                values = (lit "price", price) ∷ (lit "qty", quantity) ∷ (lit "side", side) ∷ [];
              })
              store)
  unfolding on_message on_trade trade_to_json
  on_message-on_trade now t store price quantity side solid f ep eq es =
      rw
        (trade_to_row-trade_text now (lit "trade.kis." ++ t.symbol) t (lit "}") price quantity side
          solid f ep eq es)
        refl
