-- ===== src/News/Score.antt =====
-- `NewsScoreBoard` (modules/news-pipeline/src/news_score.cpp). A `double` is a type with the operations
-- that the board uses, time is in nanoseconds, and the board is its map `entries_`.
pub mod Prune
use lemuel_quant_core.Base.{
  ℕ, ◌*◌, ◌/◌, ◌-◌, Bool, true, false, ◌||◌, leb, if◌then◌else◌, List, [], ◌∷◌, map,
}
use lemuel_quant_core.Base.Int.{ℤ, pos, negsuc, sub_ℕ, ltb_ℤ}
use lemuel_quant_core.Base.Bytes.{Bytes}
use lemuel_quant_core.Base.Maps.{push_at, list_at, change_at}

-- `half_pow half age` is `std::pow(0.5, age / half)`.
pub record Weight {ℓ} (D : Type ℓ) : Type ℓ where
  pub nought : D
  pub is_nought : D → Bool
  pub of_int : ℤ → D
  pub plus : D → D → D
  pub times : D → D → D
  pub half_pow : ℕ → ℤ → D

pub data Sentiment : Type 0 where
  negative neutral positive : Sentiment

abbrev pub to_int : Sentiment → ℤ
to_int negative = negsuc 0
to_int neutral = pos 0
to_int positive = pos 1

-- What the board reads of a `ScoredArticle`: the tickers that it mentions, the label, the confidence and
-- the time of publication.
pub record ScoredArticle {ℓ} (D : Type ℓ) : Type ℓ where
  pub mentions : List Bytes
  pub sentiment : Sentiment
  pub sentiment_confidence : D
  pub published_at : ℕ

pub record Entry {ℓ} (D : Type ℓ) : Type ℓ where
  pub contribution : D
  pub ts : ℕ

-- `duration_cast<seconds>(now - ts)`, which rounds toward 0.
abbrev pub age_seconds : ℕ → ℕ → ℤ
age_seconds now ts =
    if leb ts now then pos ((now - ts) / 1_000_000_000) else sub_ℕ 0 ((ts - now) / 1_000_000_000)

-- `age > half * 8`
abbrev pub is_expired : ℕ → ℕ → ℕ → Bool
is_expired half now ts = ltb_ℤ (pos (half * 8)) (age_seconds now ts)

abbrev pub is_none : List Bytes → Bool
is_none [] = true
is_none (t ∷ ts) = false

module _ {ℓ} {D : Type ℓ} ⦃w : Weight D⦄ where
  open w use {nought, is_nought, of_int, plus, times, half_pow}

  abbrev pub ingest_all :
      Entry D → List Bytes → List (Bytes × List (Entry D)) → List (Bytes × List (Entry D))
  ingest_all e [] m = m
  ingest_all e (ticker ∷ tickers) m = ingest_all e tickers (push_at ticker e m)

  unfoldable pub ingest :
      ScoredArticle D → List (Bytes × List (Entry D)) → List (Bytes × List (Entry D))
  ingest a m =
      let s = times (of_int (to_int a.sentiment)) a.sentiment_confidence in
      if is_nought s || is_none a.mentions
      then m
      else ingest_all (record { contribution = s; ts = a.published_at }) a.mentions m

  -- The loop: the sum, and the entries that `write` keeps.
  abbrev pub sum_from : ℕ → ℕ → D → List (Entry D) → D
  sum_from half now sum [] = sum
  sum_from half now sum (e ∷ es) =
      if is_expired half now e.ts
      then sum_from half now sum es
      else sum_from half now
          (plus sum (times e.contribution (half_pow half (age_seconds now e.ts)))) es

  abbrev pub fresh : ℕ → ℕ → List (Entry D) → List (Entry D)
  fresh half now [] = []
  fresh half now (e ∷ es) =
      if is_expired half now e.ts then fresh half now es else e ∷ fresh half now es

  -- The score of a ticker, and the board with the expired entries of the ticker erased.
  unfoldable pub score :
      ℕ → Bytes → ℕ → List (Bytes × List (Entry D)) → D × List (Bytes × List (Entry D))
  score half ticker now m =
      (sum_from half now nought (list_at ticker m), change_at ticker (fresh half now) m)

  -- `snapshot`: the score of each ticker in turn.
  unfoldable pub snapshot :
      ℕ
      → ℕ
      → List Bytes
      → List (Bytes × List (Entry D))
      → List (Bytes × D) × List (Bytes × List (Entry D))
  unfolding score
  snapshot half now [] m = ([], m)
  snapshot half now (ticker ∷ tickers) m =
      let (sum, m1) = score half ticker now m in
      let (out, m2) = snapshot half now tickers m1 in ((ticker, sum) ∷ out, m2)
