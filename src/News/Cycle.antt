-- ===== src/News/Cycle.antt =====
-- The main program of the news pipeline (modules/news-pipeline/src/main.cpp): one round of its loop, from
-- the feeds to the score board. The transfers, the sorts, the scorer and the time of publication
-- of an article are arguments.
pub mod Known
use lemuel_quant_core.Base.{
  ℕ, Bool, true, false, Option, none, some, ◌>>=◌, List, [], ◌∷◌, ◌++◌, map,
}
use lemuel_quant_core.Base.Bytes.{Bytes, lit}
use lemuel_quant_core.News.Rss.{RssSource, Article, fetch, hydrate_body}
use lemuel_quant_core.News.Score.{Weight, Entry, ScoredArticle, ingest, snapshot}
use lemuel_quant_core.News.Sentiment.{Result}
use lemuel_quant_core.News.Tagger.{ByAlias, Mention, add_company, load_csv, tag}

-- The dictionary: the lines of the file that `LQC_NEWS_TICKERS` names, or the companies of the source.
unfoldable make_ner : (ByAlias → ByAlias) → Option (List Bytes) → ByAlias
unfolding add_company load_csv
make_ner visit (some lines) = load_csv visit lines []
make_ner visit none = add_company (lit "현대차") (lit "005380") (
    add_company (lit "LG에너지솔루션") (lit "373220")
      (add_company (lit "SK하이닉스") (lit "000660") (add_company (lit "삼성전자") (lit "005930") [])))

module _ {ℓ} {D : Type ℓ} ⦃w : Weight D⦄ (by_size : List Bytes → List Bytes)
    (by_start : List Mention → List Mention) (ner : ByAlias) (scorer : Bytes → Result D)
    (http_get : Bytes → Bytes) (published_at : Article → ℕ) where
  -- The body of the loop over the articles; `none` where the tagger throws.
  unfoldable pub on_article :
      Article → List (Bytes × List (Entry D)) → Option (List (Bytes × List (Entry D)))
  unfolding hydrate_body tag ingest
  on_article art board = do
    let article = hydrate_body http_get art
    mentions ← tag by_size by_start ner article.body
    let s = scorer (article.title ++ (lit "\n" ++ article.body))
    some (
        ingest
          (record {
            mentions = map (λ m. m.ticker) mentions;
            sentiment = s.label;
            sentiment_confidence = s.confidence;
            published_at = published_at article;
          })
          board)

  unfoldable pub on_articles :
      List Article → List (Bytes × List (Entry D)) → Option (List (Bytes × List (Entry D)))
  unfolding on_article
  on_articles [] board = some board
  on_articles (art ∷ articles) board = on_article art board >>= on_articles articles

  unfoldable pub cycle :
      List RssSource → List (Bytes × List (Entry D)) → Option (List (Bytes × List (Entry D)))
  unfolding on_articles fetch
  cycle sources board = on_articles (fetch http_get sources) board

  -- A round with the snapshot behind it, which `main` prints: `visit` is the order of the map.
  unfoldable pub round :
      (List (Bytes × List (Entry D)) → List Bytes)
      → ℕ
      → ℕ
      → List RssSource
      → List (Bytes × List (Entry D))
      → Option (List (Bytes × D) × List (Bytes × List (Entry D)))
  unfolding cycle snapshot
  round visit half now sources board = do
    new ← cycle sources board
    some (snapshot half now (visit new) new)
