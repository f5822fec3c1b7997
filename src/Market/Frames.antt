-- ===== src/Market/Frames.antt =====
-- The handling of one frame in `run_loop` (modules/market-feed/src/binance_client.cpp): which handler is
-- called, with which payload and symbol.
pub mod Nested
use lemuel_quant_core.Base.{
  ℕ, suc, ◌+◌, ◌-◌, Bool, true, false, ◌&&◌, ◌==◌, Option, none, some, List, [], ◌∷◌, ◌++◌,
  if◌then◌else◌, drop, length, take,
}
use lemuel_quant_core.Base.Bytes.{Bytes, lit, bytes_eq, find, find_from, substr, starts_with}

pub data Call : Type 0 where
  ignored : Call
  trade : Bytes → Bytes → Call
  book : Bytes → Bytes → Call

-- How many bytes stand before the brace at which the loop stops, and all of them if it does not. The loop
-- starts at an opening brace, so the depth is positive at each closing one.
unfoldable pub close_brace : ℕ → Bytes → ℕ
close_brace depth [] = 0
close_brace depth (c ∷ s) =
    let deeper = close_brace (suc depth) s in
    let less = close_brace (depth - 1) s in
    let same = close_brace depth s in
    if c == b'{'
    then suc deeper
    else if c == b'}'
    then (if depth == 1 then 0 else suc less)
    else suc same

abbrev pub stream_name : Bytes → ℕ → Bytes
stream_name sv stream_start = elim (find_from (lit "\"") sv stream_start) [
  | none ↦ drop stream_start sv
  | some stream_end ↦ substr sv stream_start (stream_end - stream_start)
]

-- By the kind of the stream. Without an `@` both parts are the whole name, for `npos + 1` is 0.
abbrev call_handler : Bool → Bool → Bytes → Bytes → Bytes → Call
call_handler on_trade on_book kind payload symbol =
    if bytes_eq kind (lit "trade") && on_trade
    then trade payload symbol
    else if starts_with (lit "depth") kind && on_book
    then book payload symbol
    else ignored

abbrev pub route : Bool → Bool → Bytes → Bytes → Call
route on_trade on_book name payload = elim (find (lit "@") name) [
  | none ↦ call_handler on_trade on_book name payload name
  | some at ↦ call_handler on_trade on_book (drop (at + 1) name) payload (substr name 0 at)
]

unfoldable pub handle_frame : Bool → Bool → Bytes → Call
unfolding close_brace
handle_frame on_trade on_book sv = elim (find (lit "\"stream\":\"") sv) [
  | none ↦ ignored
  | some stream_pos ↦ elim (find (lit "\"data\":{") sv) [
    | none ↦ ignored
    | some data_pos ↦
        let data_start = data_pos + 7 in
        let close = close_brace 0 (drop data_start sv) in
        route on_trade on_book (stream_name sv (stream_pos + 10)) (substr sv data_start (close + 1))
  ]
]
