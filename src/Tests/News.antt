-- ===== src/Tests/News.antt =====
-- The news pipeline on concrete texts and scores.
use lemuel_quant_core.Base.{ℕ, ◌+◌, ◌*◌, ◌≡◌, ◌==◌, [], ◌∷◌, arith}
use lemuel_quant_core.Base.Bytes.{lit}
use lemuel_quant_core.Base.Int.{pos_part}
use lemuel_quant_core.News.Score.{Weight, positive, ScoredArticle, ingest, score}
use lemuel_quant_core.News.Score.Prune.{score-score}
use lemuel_quant_core.News.Rss.{items_loop, parse_rss_items}
use lemuel_quant_core.News.Rss.Items.{items_loop-eq-parse_rss_items}

-- Whole numbers that do not decay.
instance abbrev pub whole_weight : Weight ℕ
whole_weight = record {
  nought = 0;
  is_nought = λ n. n == 0;
  of_int = λ z. pos_part z;
  plus = λ a b. a + b;
  times = λ a b. a * b;
  half_pow = λ half age. 1;
}

abbrev good_news : ScoredArticle ℕ
good_news = record {
  mentions = lit "005930" ∷ lit "000660" ∷ [];
  sentiment = positive;
  sentiment_confidence = 3;
  published_at = 1_000_000_000;
}

score-score_example :
    (score 10
      (lit "000660")
      91_000_000_000
      (score 10 (lit "005930") 90_000_000_000 (ingest good_news [])).1).0
    ≡ (score 10 (lit "000660") 91_000_000_000 (ingest good_news [])).0
score-score_example =
    score-score 10 (lit "005930") (lit "000660") 90_000_000_000 91_000_000_000 (ingest good_news [])
      (omega arith)

items_loop-eq-parse_rss_items_example :
    items_loop 50 (lit "<item><title>A</title></item>") 0
    ≡ parse_rss_items (lit "<item><title>A</title></item>")
items_loop-eq-parse_rss_items_example =
    items_loop-eq-parse_rss_items 50 (lit "<item><title>A</title></item>") (omega arith)
