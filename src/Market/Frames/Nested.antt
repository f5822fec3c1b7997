-- ===== src/Market/Frames/Nested.antt =====
-- Frames whose braces match, and the payload that is cut out of them
-- (modules/market-feed/src/binance_client.cpp).
use lemuel_quant_core.Base.{
  ℕ, suc, ◌+◌, ◌≡◌, ◌≢◌, refl, ◌∙◌, ap, Bool, true, false, [], ◌∷◌, ◌++◌, arith, length,
  length-append, append_assoc, some, All-append, sym, ap₂, drop, take, drop_append_length,
  take_append_length,
}
use lemuel_quant_core.Base.Bytes.{Bytes, lit, find, starts_with, substr}
use lemuel_quant_core.Base.Split.{Free}
use lemuel_quant_core.Base.Find.{find-skip, starts_with_apart, find-Free, cut-Free}
use lemuel_quant_core.Market.Frames.{trade, close_brace, stream_name, route, handle_frame}

-- Text whose braces match.
pub data Nested : Bytes → Type 0 where
  nil : Nested []
  byte : (c : ℕ) (s : Bytes) → c ≢ b'{' → c ≢ b'}' → Nested s → Nested (c ∷ s)
  block : (s t : Bytes) → Nested s → Nested t → Nested (b'{' ∷ (s ++ b'}' ∷ t))

close_brace-Nested :
    (depth : ℕ) (s rest : Bytes)
    → Nested s
    → close_brace (suc depth) (s ++ rest) ≡ length s + close_brace (suc depth) rest
unfolding close_brace
close_brace-Nested depth _ rest nil = omega arith
close_brace-Nested depth _ rest (byte c s a b n) = ground (arith, close_brace-Nested depth s rest n)
close_brace-Nested depth _ rest (block s t n k) =
    let pop : close_brace (suc (suc depth)) (b'}' ∷ (t ++ rest))
        ≡ suc (close_brace (suc depth) (t ++ rest)) =
      ground arith in
    rw (append_assoc s (b'}' ∷ t) rest) (
      omega (
        arith,
        close_brace-Nested (suc depth) s (b'}' ∷ (t ++ rest)) n,
        pop,
        close_brace-Nested depth t rest k,
        length-append s (b'}' ∷ t),
      ))

-- A trade frame: the name of the stream, and an object as its data.
abbrev pub frame : Bytes → Bytes → Bytes
frame symbol body =
    lit "{\"stream\":\"" ++ (symbol ++ (lit "@trade\",\"data\":" ++ (b'{' ∷ (body ++ lit "}}"))))

module _ (symbol body : Bytes) (f : Free 0x22 symbol) (g : Free b'@' symbol) where
  behind : Bytes
  behind = lit "@trade\",\"data\":" ++ (b'{' ∷ (body ++ lit "}}"))

  data_found : find (lit "\"data\":{") (frame symbol body) ≡ some (length symbol + 19)
  unfolding behind
  data_found =
      let here : find (lit "\"data\":{") behind ≡ some 8 = refl in
      let apart : starts_with (lit "data\":{") (symbol ++ behind) ≡ false =
        starts_with_apart 0x22 b'@' (lit "data") (lit ":{") symbol
          (lit "trade\",\"data\":" ++ (b'{' ∷ (body ++ lit "}}"))) (λ e. omega arith)
          (λ e. omega arith, (λ e. omega arith, (λ e. omega arith, (λ e. omega arith, tt)))) f in
      rw (apart, find-skip 0x22 (lit "data\":{") symbol behind 8 f here, find)
        (ap some (omega arith))

  name_found : stream_name (frame symbol body) 11 ≡ symbol ++ lit "@trade"
  name_found =
      let rest = lit ",\"data\":" ++ (b'{' ∷ (body ++ lit "}}")) in
      ap (λ t. stream_name (lit "{\"stream\":\"" ++ t) 11)
        (sym (append_assoc symbol (lit "@trade") (0x22 ∷ rest)))
      ∙ cut-Free 0x22 (lit "{\"stream\":\"") (symbol ++ lit "@trade") rest (
          All-append (λ c. c ≢ 0x22) symbol (lit "@trade") f
            (
              λ e. omega arith,
              (
                λ e. omega arith,
                (λ e. omega arith, (λ e. omega arith, (λ e. omega arith, (λ e. omega arith, tt)))),
              ),
            ))

  -- The object behind any text.
  object_at :
      Nested body
      → (pre : Bytes)
      → let sv = pre ++ (b'{' ∷ (body ++ lit "}}")) in
        substr sv (length pre) (close_brace 0 (drop (length pre) sv) + 1) ≡ b'{' ∷ (body ++ lit "}")
  unfolding close_brace
  object_at n pre =
      let opened : close_brace 0 (b'{' ∷ (body ++ lit "}}"))
          ≡ suc (close_brace 1 (body ++ lit "}}")) =
        refl in
      let closed : close_brace 1 (lit "}}") ≡ 0 = refl in
      let width : close_brace 0 (b'{' ∷ (body ++ lit "}}")) + 1 ≡ suc (length (body ++ lit "}")) =
        omega (
          arith,
          opened,
          closed,
          close_brace-Nested 0 body (lit "}}") n,
          length-append body (lit "}"),
        ) in
      rw (drop_append_length pre (b'{' ∷ (body ++ lit "}}")), width)
        (ap (λ t. b'{' ∷ take (length (body ++ lit "}")) t)
            (sym (append_assoc body (lit "}") (lit "}")))
          ∙ ap (◌∷◌ b'{') (take_append_length (body ++ lit "}") (lit "}")))

  payload_found :
      Nested body
      → substr
          (frame symbol body)
          (length symbol + 19 + 7)
          (close_brace 0 (drop (length symbol + 19 + 7) (frame symbol body)) + 1)
        ≡ b'{' ∷ (body ++ lit "}")
  payload_found n =
      let mid = lit "@trade\",\"data\":" in
      let pre = lit "{\"stream\":\"" ++ (symbol ++ mid) in
      let at : length symbol + 19 + 7 ≡ length pre = omega (arith, length-append symbol mid) in
      ap₂
        (λ t k.
          substr (lit "{\"stream\":\"" ++ t) k
            (close_brace 0 (drop k (lit "{\"stream\":\"" ++ t)) + 1))
        (sym (append_assoc symbol mid (b'{' ∷ (body ++ lit "}}")))) at
      ∙ object_at n pre

handled :
    (on_trade on_book : Bool) (sv name payload : Bytes) (p q : ℕ)
    → find (lit "\"stream\":\"") sv ≡ some p
    → find (lit "\"data\":{") sv ≡ some q
    → stream_name sv (p + 10) ≡ name
    → substr sv (q + 7) (close_brace 0 (drop (q + 7) sv) + 1) ≡ payload
    → handle_frame on_trade on_book sv ≡ route on_trade on_book name payload
unfolding handle_frame
handled on_trade on_book sv name payload p q e1 e2 e3 e4 =
    rw (e1, e2, handle_frame) (ap₂ (route on_trade on_book) e3 e4)

route-trade :
    (on_book : Bool) (symbol payload : Bytes)
    → Free b'@' symbol
    → route true on_book (symbol ++ lit "@trade") payload ≡ trade payload symbol
route-trade on_book symbol payload g =
    rw (find-Free b'@' symbol (lit "trade") g, route)
      (rw (kind, take_append_length symbol (lit "@trade")) refl)
  where
    kind : drop (length symbol + 1) (symbol ++ lit "@trade") ≡ lit "trade"
    kind =
        ap₂ (λ k t. drop k t) (omega (arith, length-append symbol (lit "@")))
          (sym (append_assoc symbol (lit "@") (lit "trade")))
        ∙ drop_append_length (symbol ++ lit "@") (lit "trade")

-- A frame of a trade stream reaches the trade handler with the symbol of the stream and with the whole
-- object behind `"data":`, if the braces of the object match and the symbol has neither a quote nor an
-- `@`.
pub handle_frame-frame :
    (on_book : Bool) (symbol body : Bytes)
    → Free 0x22 symbol
    → Free b'@' symbol
    → Nested body
    → handle_frame true on_book (frame symbol body) ≡ trade (b'{' ∷ (body ++ lit "}")) symbol
handle_frame-frame on_book symbol body f g n =
    handled true on_book (frame symbol body) (symbol ++ lit "@trade") (b'{' ∷ (body ++ lit "}")) 1
      (length symbol + 19) refl (data_found symbol body f g) (name_found symbol body f g)
      (payload_found symbol body f g n)
    ∙ route-trade on_book symbol (b'{' ∷ (body ++ lit "}")) g
