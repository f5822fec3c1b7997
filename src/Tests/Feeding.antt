-- ===== src/Tests/Feeding.antt =====
-- The feeds on concrete times, messages and failures.
use lemuel_quant_core.Base.{
  ℕ, ◌+◌, ◌%◌, ◌≡◌, ◌≢◌, refl, Bool, true, false, ◌&&◌, Option-cases, inl, inr, none, some, List,
  [], ◌∷◌, arith, All, take, drop, map, if◌then◌else◌,
}
use lemuel_quant_core.Base.Bytes.{Bytes, lit, bytes_eq}
use lemuel_quant_core.Base.Split.{Free, split}
use lemuel_quant_core.Feed.Redis.{Context, publish_all, publish_all-until_break}
use lemuel_quant_core.Feed.Lifecycle.{
  Client, Worker, IsValid, Event, run, start, destroy, fail, fresh, fail_terminates,
}
use lemuel_quant_core.Stock.Session.{is_market_day, state_at, time_until_next, kst_seconds}
use lemuel_quant_core.Stock.Session.Change.{then_at, time_until_next_keep, time_until_next_change}
use lemuel_quant_core.Stock.Kis.{to_double, parse_h0stasp0, Credentials}
use lemuel_quant_core.Stock.Kis.Levels.{Numeric, zip_levels, parse_h0stasp0_lem}
use lemuel_quant_core.Stock.Kis.Frames.{payload}
use lemuel_quant_core.Stock.Kis.Connection.{Peer, run_round}
use lemuel_quant_core.Stock.Kis.Connection.Trades.{
  Message, answer, trade, IsMessage, to_frame, read_message, trading_round, run_round-trades,
}
use lemuel_quant_core.Feed.Reading.{until_thrown}
use lemuel_quant_core.Stock.Supervise.{Turn, supervise, is_tradeable}
use lemuel_quant_core.Stock.Supervise.Follows.{supervise-Follows}
use lemuel_quant_core.Tests.{whole_double, are_free→All}

abbrev valid_client : Client
valid_client = fresh true

valid : IsValid valid_client
valid = record { reconnects = refl; agrees = refl }

abbrev frail : Client
frail = record { running = true; worker = Worker.looping; reconnect = false }

fail_terminates_example :
    (c' : Client) × (run (Event.failed ∷ Event.stop_called ∷ Event.stop_called ∷ []) (fail frail)
      ≡ some c')
    × (start c' ≡ none)
    × (destroy c' ≡ none)
unfolding start
fail_terminates_example =
    fail_terminates (Event.start_called ∷ Event.start_called ∷ [])
      (Event.failed ∷ Event.stop_called ∷ Event.stop_called ∷ []) frail refl refl tt

-- Tuesday, 2024-01-02, 10:00:30 in Seoul.
abbrev tuesday : ℕ
tuesday = 1_704_157_230_000_000_000

-- Saturday, 2024-01-06, at the same time of day.
abbrev saturday : ℕ
saturday = 1_704_502_830_000_000_000

time_until_next_keep_example : state_at (tuesday + 60_000_000_000) ≡ state_at tuesday
unfolding time_until_next
time_until_next_keep_example =
    time_until_next_keep tuesday (tuesday + 60_000_000_000) (omega arith) (omega arith)

time_until_next_change_example :
    (state_at (then_at tuesday) ≢ state_at tuesday) × (kst_seconds (then_at tuesday) % 60 ≡ 0)
unfolding is_market_day
time_until_next_change_example = time_until_next_change tuesday refl (omega arith)

-- One ask at 70100 for 5.
abbrev asked : Bytes
asked = lit "005930^093015^0^70100^0^0^0^0^0^0^0^0^0^0^0^0^0^0^0^0^0^0^0^5"

-- The number that a field stands for.
num : Bytes → ℕ
num x = elim (to_double {D = ℕ} x) [ none ↦ 0 | some n ↦ n ]

abbrev is_number : Bytes → Bool
is_number x = elim (to_double {D = ℕ} x) [ none ↦ false | some n ↦ true ]

abbrev are_numbers : List Bytes → Bool
are_numbers [] = true
are_numbers (x ∷ xs) = is_number x && are_numbers xs

are_numbers→All : (xs : List Bytes) → are_numbers xs ≡ true → All (Numeric num) xs
unfolding num
are_numbers→All [] h = tt
are_numbers→All (x ∷ xs) h = elim (Option-cases (to_double {D = ℕ} x)) [
  | inl e ↦ absurd (ground (arith, e))
  | inr (n, e) ↦ (ground (arith, e), are_numbers→All xs (ground arith))
]

asked-Numeric : All (Numeric num) (split b'^' asked)
unfolding split whole_double
asked-Numeric = are_numbers→All (split b'^' asked) refl

parse_h0stasp0_lem_example :
    let f = split b'^' asked in
    parse_h0stasp0 {D = ℕ} 7 asked (lit "005930")
    ≡ some (record {
      symbol = lit "005930";
      bids = zip_levels num (take 10 (drop 13 f)) (drop 33 f);
      asks = zip_levels num (take 10 (drop 3 f)) (drop 23 f);
      exchange_ts_ns = 0;
      local_ts_ns = 7;
    })
parse_h0stasp0_lem_example = parse_h0stasp0_lem num 7 asked (lit "005930") asked-Numeric

abbrev trade_fields : List Bytes
trade_fields = lit "70000" ∷ lit "0" ∷ []

abbrev pub kis_sent : List Message
kis_sent =
    trade 7 (lit "0") (lit "001") (lit "005930") (lit "093015") trade_fields
    ∷ answer 8 (lit "}")
    ∷ []

pub kis_sent-IsMessage : All IsMessage kis_sent
kis_sent-IsMessage =
    let carets : All (Free b'^') (lit "005930" ∷ lit "093015" ∷ trade_fields) =
      are_free→All b'^' (lit "005930" ∷ lit "093015" ∷ trade_fields) refl in
    let parts =
      lit "0"
      ∷ lit "H0STCNT0"
      ∷ lit "001"
      ∷ payload (lit "005930") (lit "093015") trade_fields
      ∷ [] in
    ((λ e. omega arith, carets, are_free→All b'|' parts refl), (tt, tt))

-- The server gives the key `k` and sends one trade and one answer.
abbrev pub kis_peer : Peer
kis_peer = record {
  http_post = λ url body. lit "{}";
  sj_get_string = λ body key. lit "k";
  is_connected = true;
  frames = map to_frame kis_sent;
}

abbrev pub kis_credentials : Credentials
kis_credentials = record { app_key = lit "a"; app_secret = lit "s"; paper = true }

run_round-trades_example :
    run_round {D = ℕ} true false kis_credentials (lit "005930" ∷ []) [] kis_peer
    ≡ trading_round kis_credentials
        (lit "005930" ∷ [])
        []
        kis_peer
        (until_thrown (map read_message kis_sent))
run_round-trades_example =
    run_round-trades false kis_credentials (lit "005930" ∷ []) [] kis_peer kis_sent
      kis_sent-IsMessage refl refl refl

supervise-Follows_example :
    (c' : Client) × (supervise
        (Turn.round saturday ∷ Turn.failure ∷ Turn.round tuesday ∷ [])
        valid_client
      ≡ some c')
    × (c'.running ≡ is_tradeable (state_at tuesday))
    × (c'.worker ≡ (if is_tradeable (state_at tuesday) then Worker.looping else Worker.absent))
supervise-Follows_example =
    supervise-Follows (Turn.round saturday ∷ Turn.failure ∷ []) tuesday valid_client valid

-- The connection breaks at the second of three messages.
abbrev publications : List (Bytes × Bytes)
publications = (lit "a", lit "1") ∷ (lit "b", lit "2") ∷ (lit "c", lit "3") ∷ []

abbrev breaks_at_b : Bytes × Bytes → Bool
breaks_at_b (channel, message) = bytes_eq channel (lit "b")

publish_all-until_break_example :
    (publish_all breaks_at_b publications Context.ready).1
    ≡ (lit "a", lit "1") ∷ (lit "b", lit "2") ∷ []
publish_all-until_break_example = publish_all-until_break breaks_at_b publications
