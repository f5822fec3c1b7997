-- ===== src/Market/Streams.antt =====
-- `subscribe_trades`, `subscribe_book` and the combined-stream path of `run_loop`
-- (modules/market-feed/src/binance_client.cpp).
use lemuel_quant_core.Base.{
  ℕ, ◌≡◌, refl, ◌∙◌, ap, sym, Bool, true, false, List, [], ◌∷◌, ◌++◌, map, append-nil, append_assoc,
  All, drop, length, if◌then◌else◌,
}
use lemuel_quant_core.Base.Bytes.{Bytes, lit, decimal}
use lemuel_quant_core.Base.Split.{split, join, Free, split-join}
use lemuel_quant_core.Market.{Subscriptions}

unfoldable subscribe_trades : Bytes → Subscriptions → Subscriptions
subscribe_trades symbol o = record o { trade_symbols = o.trade_symbols ++ symbol ∷ [] }

-- The depth is that of the last call, for every symbol.
unfoldable subscribe_book : Bytes → ℕ → Subscriptions → Subscriptions
subscribe_book symbol depth o = record o {
  book_symbols = o.book_symbols ++ symbol ∷ [];
  book_depth = depth;
}

abbrev trade_stream : Bytes → Bytes
trade_stream s = s ++ lit "@trade"

abbrev book_stream : ℕ → Bytes → Bytes
book_stream depth s = s ++ lit "@depth" ++ decimal depth ++ lit "@100ms"

-- One of the two loops, with the flag `first`: what it writes, and the flag behind it.
abbrev write_streams : Bool → List Bytes → Bytes × Bool
write_streams first [] = ([], first)
write_streams first (n ∷ ns) =
    let (text, last) = write_streams false ns in ((if first then n else lit "/" ++ n) ++ text, last)

unfoldable pub path : Subscriptions → Bytes
path o =
    let (trades, first) = write_streams true (map trade_stream o.trade_symbols) in
    let (books, last) = write_streams first (map (book_stream o.book_depth) o.book_symbols) in
    lit "/stream?streams=" ++ (trades ++ books)

-- The streams that a client is to ask for.
abbrev pub streams : Subscriptions → List Bytes
streams o = map trade_stream o.trade_symbols ++ map (book_stream o.book_depth) o.book_symbols

write_streams-append :
    (first : Bool) (xs ys : List Bytes)
    → (write_streams first (xs ++ ys)).0
      ≡ (write_streams first xs).0 ++ (write_streams (write_streams first xs).1 ys).0
write_streams-append first [] ys = refl
write_streams-append first (x ∷ xs) ys =
    ap (λ t. (if first then x else lit "/" ++ x) ++ t) (write_streams-append false xs ys)
    ∙ sym (append_assoc (if first then x else lit "/" ++ x) (write_streams false xs).0 _)

write_streams-join :
    (x : Bytes) (xs : List Bytes) → (write_streams true (x ∷ xs)).0 ≡ join b'/' (x ∷ xs)
write_streams-join x [] = append-nil x
write_streams-join x (y ∷ ys) = ap (λ t. x ++ (b'/' ∷ t)) (write_streams-join y ys)

-- The path names exactly the subscribed streams, trades first: cut at its slashes, what stands behind
-- the prefix is the list of the streams, if there is one and none of their names has a slash.
split-path :
    (o : Subscriptions) (x : Bytes) (xs : List Bytes)
    → streams o ≡ x ∷ xs
    → All (Free b'/') (x ∷ xs)
    → split b'/' (drop (length (lit "/stream?streams=")) (path o)) ≡ streams o
unfolding path
split-path o x xs e h =
    ap (split b'/') (
      sym (
        write_streams-append true (map trade_stream o.trade_symbols)
          (map (book_stream o.book_depth) o.book_symbols))
      ∙ ap (λ l. (write_streams true l).0) e
      ∙ write_streams-join x xs)
    ∙ split-join b'/' x xs h
    ∙ sym e
