-- ===== src/News/Tagger.antt =====
-- `TickerNer` (modules/news-pipeline/src/ner.cpp), as its map `by_alias_`. The order in which the map is
-- gone through and the two calls of `std::sort` are arguments. `consumed` is a function of the index.
-- An `int` is the number that its 32 bits stand for without a sign.
pub mod Scan
pub mod Spans
pub mod Longest
use lemuel_quant_core.Base.{
  ℕ, zero, suc, ◌+◌, ◌-◌, ◌%◌, Bool, true, false, ◌&&◌, ◌||◌, ◌==◌, ltb, leb, if◌then◌else◌, Option,
  none, some, ◌>>=◌, List, [], ◌∷◌, ◌++◌, map, length,
}
use lemuel_quant_core.Base.Bytes.{Bytes, bytes_eq, find_from, is_empty}
use lemuel_quant_core.Base.Split.{pieces}

-- alias → (canonical corp_name, ticker)
abbrev pub ByAlias : Type 0
ByAlias = List (Bytes × (Bytes × Bytes))

pub record Mention : Type 0 where
  pub ticker : Bytes
  pub corp_name : Bytes
  pub span_start : ℕ
  pub span_end : ℕ

abbrev pub lookup : Bytes → ByAlias → Option (Bytes × Bytes)
lookup alias [] = none
lookup alias ((k, v) ∷ m) = if bytes_eq k alias then some v else lookup alias m

-- `by_alias_[alias] = v`
abbrev assign : Bytes → Bytes × Bytes → ByAlias → ByAlias
assign alias v [] = (alias, v) ∷ []
assign alias v ((k, w) ∷ m) =
    let rest = assign alias v m in if bytes_eq k alias then (k, v) ∷ m else (k, w) ∷ rest

-- `add_company(corp_name, ticker)`
unfoldable pub add_company : Bytes → Bytes → ByAlias → ByAlias
add_company corp_name ticker m = assign corp_name (corp_name, ticker) m

-- The name in the first entry with the ticker.
abbrev canonical : Bytes → ByAlias → Option Bytes
canonical ticker [] = none
canonical ticker ((k, (corp, t)) ∷ m) = if bytes_eq t ticker then some corp else canonical ticker m

-- `split_csv`
abbrev split_csv : Bytes → List Bytes
split_csv line = pieces 0x2C line

abbrev is_skipped : Bytes → Bool
is_skipped [] = true
is_skipped (c ∷ line) = c == 0x23

module _ (visit : ByAlias → ByAlias) where
  unfoldable pub add_alias : Bytes → Bytes → ByAlias → ByAlias
  add_alias ticker alias m = elim (canonical ticker (visit m)) [
    | none ↦ m
    | some corp ↦ assign alias (corp, ticker) m
  ]

  unfoldable add_aliases : Bytes → List Bytes → ByAlias → ByAlias
  unfolding add_alias
  add_aliases ticker [] m = m
  add_aliases ticker (alias ∷ aliases) m = add_aliases ticker aliases (add_alias ticker alias m)

  -- The columns of one line; a line with fewer than two is left out.
  unfoldable load_columns : List Bytes → ByAlias → ByAlias
  unfolding add_company add_aliases
  load_columns (ticker ∷ corp ∷ aliases) m = add_aliases ticker aliases (add_company corp ticker m)
  load_columns (ticker ∷ []) m = m
  load_columns [] m = m

  -- `load_csv`, for the lines of the file.
  unfoldable pub load_csv : List Bytes → ByAlias → ByAlias
  unfolding load_columns
  load_csv [] m = m
  load_csv (line ∷ lines) m =
      load_csv lines (if is_skipped line then m else load_columns (split_csv line) m)

-- `static_cast<int>` of an offset.
abbrev pub as_int : ℕ → ℕ
as_int n = n % 4_294_967_296

-- Where an `int` stands among all of them: the negative ones, whose first bit is set, come first.
abbrev pub int_rank : ℕ → ℕ
int_rank n = (n + 2_147_483_648) % 4_294_967_296

-- `hits` and `consumed`.
abbrev pub Scanned : Type 0
Scanned = List Mention × (ℕ → Bool)

-- The loop over the `n` indices from `p` on.
abbrev pub overlaps : ℕ → ℕ → (ℕ → Bool) → Bool
overlaps zero p consumed = false
overlaps (suc n) p consumed = consumed p || overlaps n (suc p) consumed

abbrev pub fill : ℕ → ℕ → (ℕ → Bool) → ℕ → Bool
fill p end consumed i = (leb p i && ltb i end) || consumed i

-- An occurrence of the alias `a` at `p`; none where `at` throws.
unfoldable pub occurrence : ByAlias → Bytes → ℕ → Scanned → Option Scanned
occurrence m a p (hits, consumed) =
    let end = p + length a in
    if overlaps (length a) p consumed then some (hits, consumed) else elim (lookup a m) [
      | none ↦ none
      | some (corp, ticker) ↦ some (
        hits
            ++ record {
              ticker = ticker;
              corp_name = corp;
              span_start = as_int p;
              span_end = as_int end;
            }
              ∷ [],
        fill p end consumed,
      )
    ]

-- The `while` loop; on fuel.
unfoldable pub scan : ℕ → ByAlias → Bytes → Bytes → ℕ → Scanned → Option Scanned
unfolding occurrence
scan zero m a body p st = some st
scan (suc fuel) m a body p st = elim (find_from a body p) [
  | none ↦ some st
  | some q ↦ occurrence m a q st >>= scan fuel m a body (q + length a)
]

unfoldable pub scan_all : ByAlias → Bytes → List Bytes → Scanned → Option Scanned
unfolding scan
scan_all m body [] st = some st
scan_all m body (a ∷ aliases) st =
    if is_empty a
    then scan_all m body aliases st
    else scan (suc (length body)) m a body 0 st >>= scan_all m body aliases

abbrev pub keys : ByAlias → List Bytes
keys [] = []
keys ((k, v) ∷ m) = k ∷ keys m

unfoldable pub tag :
    (List Bytes → List Bytes)
    → (List Mention → List Mention)
    → ByAlias
    → Bytes
    → Option (List Mention)
unfolding scan_all
tag by_size by_start m body =
    scan_all m body (by_size (keys m)) ([], λ i. false) >>= λ st. some (by_start st.0)
