-- ===== src/News/Score/Prune.antt =====
-- What the erasure of expired entries inside `score` can be seen to do
-- (modules/news-pipeline/src/news_score.cpp).
use lemuel_quant_core.Base.{
  ℕ, ◌≤◌, ◌≡◌, refl, ◌∙◌, ap, ap₂, sym, true, Bool-cases, inl, inr, List, [], ◌∷◌, ◌++◌, map,
  append_assoc, append-nil, arith, if◌then◌else◌,
}
use lemuel_quant_core.Base.Bytes.{Bytes, bytes_eq}
use lemuel_quant_core.Base.Maps.{list_at, list_at-change_at, push_at, list_at-push_at}
use lemuel_quant_core.News.Score.{
  Weight, Entry, ScoredArticle, is_expired, age_seconds, sum_from, fresh, score, snapshot, ingest,
  ingest_all, to_int, is_none,
}

-- What has expired stays expired.
is_expired_later :
    (half now later ts : ℕ)
    → now ≤ later
    → is_expired half now ts ≡ true
    → is_expired half later ts ≡ true
is_expired_later half now later ts h e = ground arith

module _ {ℓ} {D : Type ℓ} ⦃w : Weight D⦄ where
  open w use {nought, is_nought, of_int, plus, times, half_pow}

  sum_from-fresh :
      (half now later : ℕ) (sum : D) (es : List (Entry D))
      → now ≤ later
      → sum_from half later sum (fresh half now es) ≡ sum_from half later sum es
  sum_from-fresh half now later sum [] h = refl
  sum_from-fresh half now later sum (e ∷ es) h = elim (Bool-cases (is_expired half now e.ts)) [
    | inl t ↦
        rw (t, is_expired_later half now later e.ts h t, fresh, sum_from)
          (sum_from-fresh half now later sum es h)
    | inr f ↦ elim (Bool-cases (is_expired half later e.ts)) [
      | inl t ↦ rw (f, t, fresh, sum_from) (sum_from-fresh half now later sum es h)
      | inr g ↦
          rw (f, g, fresh, sum_from)
            (sum_from-fresh half now later
              (plus sum (times e.contribution (half_pow half (age_seconds later e.ts)))) es h)
    ]
  ]

  -- The erasure that a call of `score` makes is never seen later: after a score of any ticker, the
  -- score of any ticker at a time that is not before it is what it would have been without that call.
  pub score-score :
      (half : ℕ) (ticker other : Bytes) (now later : ℕ) (m : List (Bytes × List (Entry D)))
      → now ≤ later
      → (score half other later (score half ticker now m).1).0 ≡ (score half other later m).0
  unfolding score
  score-score half ticker other now later m h =
      ap (sum_from half later nought) (list_at-change_at other ticker (fresh half now) m refl)
      ∙ (elim (Bool-cases (bytes_eq ticker other)) [
        | inl t ↦ rw t (sum_from-fresh half now later nought (list_at other m) h)
        | inr f ↦ rw f refl
      ])

  -- A snapshot holds, for each of its tickers, the score that the board has for it at that time.
  snapshot_lem :
      (half now : ℕ) (tickers : List Bytes) (m : List (Bytes × List (Entry D)))
      → (snapshot half now tickers m).0
        ≡ map {B = Bytes × D} (λ t. (t, (score half t now m).0)) tickers
  unfolding snapshot
  snapshot_lem half now [] m = refl
  snapshot_lem half now (t ∷ ts) m =
      ap (◌∷◌ (t, (score half t now m).0))
        (snapshot_lem half now ts (score half t now m).1 ∙ same ts)
    where
      same :
          (us : List Bytes)
          → map {B = Bytes × D} (λ u. (u, (score half u now (score half t now m).1).0)) us
            ≡ map {B = Bytes × D} (λ u. (u, (score half u now m).0)) us
      same [] = refl
      same (u ∷ us) =
          ap₂ (λ d l. (u, d) ∷ l) (score-score half t u now now m (omega arith)) (same us)

  -- One entry for each mention of the ticker.
  abbrev pub mentioned : Bytes → Entry D → List Bytes → List (Entry D)
  mentioned c e [] = []
  mentioned c e (ticker ∷ tickers) =
      if bytes_eq ticker c then e ∷ mentioned c e tickers else mentioned c e tickers

  mentioned_none :
      (c : Bytes) (e : Entry D) (l : List Bytes) → is_none l ≡ true → mentioned c e l ≡ []
  mentioned_none c e [] h = refl
  mentioned_none c e (t ∷ ts) h = cc

  list_at-ingest_all :
      (c : Bytes) (e : Entry D) (tickers : List Bytes) (m : List (Bytes × List (Entry D)))
      → list_at c (ingest_all e tickers m) ≡ list_at c m ++ mentioned c e tickers
  list_at-ingest_all c e [] m = sym (append-nil (list_at c m))
  list_at-ingest_all c e (ticker ∷ tickers) m =
      list_at-ingest_all c e tickers (push_at ticker e m)
      ∙ ap (λ l. l ++ mentioned c e tickers) (list_at-push_at c ticker e m)
      ∙ append_assoc (list_at c m) (if bytes_eq ticker c then e ∷ [] else [])
          (mentioned c e tickers)
      ∙ ap (λ l. list_at c m ++ l)
          (elim (Bool-cases (bytes_eq ticker c)) [
            | inl t ↦ rw (t, mentioned) refl
            | inr f ↦ rw (f, mentioned) refl
          ])

  -- An article adds to the entries of each ticker one entry for each time that it mentions the ticker,
  -- with the signed confidence and the time of publication, and none at all if that product is 0.
  pub list_at-ingest :
      (c : Bytes) (a : ScoredArticle D) (m : List (Bytes × List (Entry D)))
      → list_at c (ingest a m) ≡ (
          let s = times (of_int (to_int a.sentiment)) a.sentiment_confidence in
          if is_nought s
          then list_at c m
          else list_at c m
            ++ mentioned c (record { contribution = s; ts = a.published_at }) a.mentions)
  unfolding ingest
  list_at-ingest c a m =
      elim (Bool-cases (is_nought (times (of_int (to_int a.sentiment)) a.sentiment_confidence))) [
        | inl t ↦ rw t refl
        | inr f ↦ elim (Bool-cases (is_none a.mentions)) [
          | inl t ↦ rw (f, t, mentioned_none c _ a.mentions t) (sym (append-nil (list_at c m)))
          | inr g ↦
              rw (f, g)
                (list_at-ingest_all c
                  (record {
                    contribution = times (of_int (to_int a.sentiment)) a.sentiment_confidence;
                    ts = a.published_at;
                  })
                  a.mentions m)
        ]
      ]
