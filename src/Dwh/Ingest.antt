-- ===== src/Dwh/Ingest.antt =====
-- The ingest of published trades: `gets`, `getd`, `trade_to_row` and the callback of `main`
-- (modules/data-warehouse/src/main.cpp). The clock is an argument; an exception of `std::stod` is `none`.
pub mod Binance
pub mod Published
use lemuel_quant_core.Base.{
  ℕ, ◌+◌, ◌-◌, Bool, true, false, ◌||◌, ◌==◌, Option, none, some, List, [], ◌∷◌, ◌++◌, length, drop,
  ◌>>=◌, if◌then◌else◌,
}
use lemuel_quant_core.Base.Bytes.{Bytes, lit, find, find_from, substr, starts_with}
use lemuel_quant_core.Feed.{Double}
use lemuel_quant_core.Dwh.{Row}
use lemuel_quant_core.Dwh.Store.{append}

-- `while (p < json.size() && (json[p] == ' ' || json[p] == '"')) ++p;` on what stands behind `p`.
abbrev pub skip_lead : Bytes → Bytes
skip_lead [] = []
skip_lead (c ∷ s) = if c == 0x20 || c == 0x22 then skip_lead s else c ∷ s

-- The bytes up to the first `,`, `}` or `"`.
abbrev pub until_end : Bytes → Bytes
until_end [] = []
until_end (c ∷ s) = if c == 0x2C || c == 0x7D || c == 0x22 then [] else c ∷ until_end s

unfoldable pub gets : Bytes → Bytes → Bytes
gets json key =
    let k = lit "\"" ++ key ++ lit "\":\"" in
    elim (find k json) [
      | none ↦ []
      | some p ↦ elim (find_from (lit "\"") json (p + length k)) [
        | none ↦ drop (p + length k) json
        | some e ↦ substr json (p + length k) (e - (p + length k))
      ]
    ]

module _ {ℓ} {D : Type ℓ} ⦃d : Double D⦄ where
  open d use {nought, stod}

  unfoldable pub getd : Bytes → Bytes → Option D
  getd json key =
      let k = lit "\"" ++ key ++ lit "\":" in
      elim (find k json) [
        | none ↦ some nought
        | some p ↦ stod (until_end (skip_lead (drop (p + length k) json)))
      ]

  unfoldable pub trade_to_row : ℕ → Bytes → Bytes → Option (Row D)
  unfolding gets getd
  trade_to_row now channel payload = do
    price ← getd payload (lit "price")
    qty ← getd payload (lit "qty")
    side ← getd payload (lit "side")
    some record {
      ts_ns = now;
      channel = lit "trade";
      tags = (lit "channel", channel) ∷ (lit "symbol", gets payload (lit "symbol")) ∷ [];
      values = (lit "price", price) ∷ (lit "qty", qty) ∷ (lit "side", side) ∷ [];
    }

  -- The callback of the subscriber: the new store, or the exception.
  unfoldable pub on_message :
      ℕ → Bytes × Bytes → List (Bytes × List (Row D)) → Option (List (Bytes × List (Row D)))
  unfolding trade_to_row append
  on_message now (channel, payload) store =
      if starts_with (lit "trade.") channel
      then elim (trade_to_row now channel payload) [ none ↦ none | some r ↦ some (append r store) ]
      else some store
