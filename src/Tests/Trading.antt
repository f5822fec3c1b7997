-- ===== src/Tests/Trading.antt =====
-- The Binance feed on concrete messages.
use lemuel_quant_core.Base.{ℕ, ◌≡◌, refl, true, List, [], ◌∷◌, arith, Option, none, some}
use lemuel_quant_core.Base.Bytes.{Bytes, lit, decimal}
use lemuel_quant_core.Market.Frames.Nested.{Nested, nil, byte, block}
use lemuel_quant_core.Market.Connection.Trades.{Message, IsMessage}
use lemuel_quant_core.Base.Find.{is_free→Free}
use lemuel_quant_core.Feed.{sell}
use lemuel_quant_core.Market.Messages.{Fields, field, scalar, text, number, truth, parse_trade}
use lemuel_quant_core.Tests.{whole_double}

-- `1{2}`, which is no JSON but has an object inside.
pub inner : Nested (lit "1{2}")
inner =
    byte 0x31 (lit "{2}") (λ e. omega arith) (λ e. omega arith)
      (block (lit "2") [] (byte 0x32 [] (λ e. omega arith) (λ e. omega arith) nil) nil)

abbrev pub message : Fields ℕ
message = field (lit "e") (scalar (text (lit "trade"))) (
    field (lit "p") (scalar (text (lit "70"))) (
      field (lit "t") (scalar (number none (some 12))) (
        field (lit "T") (scalar (number none (some 5)))
          (field (lit "m") (scalar (truth true)) Fields.ended))))

abbrev pub stoll : Bytes → Option ℕ
stoll s = none

-- The trade of the message, whose quantity is missing.
message_trade :
    parse_trade stoll 9 message (lit "btcusdt")
    ≡ some (record {
      symbol = lit "btcusdt";
      price = 70;
      quantity = 0;
      side = sell;
      exchange_ts_ns = 5_000_000;
      local_ts_ns = 9;
      trade_id = lit "12";
    })
unfolding parse_trade whole_double decimal
message_trade = refl

abbrev sent : List Message
sent =
    record { now = 9; symbol = lit "btcusdt"; body = lit "1{2}" }
    ∷ record { now = 10; symbol = lit "btcusdt"; body = [] }
    ∷ []

pub sound :
    (body : Bytes) {now : ℕ}
    → Nested body
    → IsMessage (record { now = now; symbol = lit "btcusdt"; body = body })
sound body n = record {
  unquoted = is_free→Free 0x22 (lit "btcusdt") refl;
  single = is_free→Free b'@' (lit "btcusdt") refl;
  nested = n;
}
