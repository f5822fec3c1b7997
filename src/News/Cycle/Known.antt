-- ===== src/News/Cycle/Known.antt =====
-- Whom a round of the news pipeline scores (modules/news-pipeline/src/main.cpp).
use mathlib.Core.List.{Mem, Perm, Pairwise, mem-cons_self, mem-cons_of_mem}
use lemuel_quant_core.Base.{
  ℕ, ◌≤◌, ◌≡◌, ◌≢◌, refl, ◌∙◌, Bool-cases, inl, inr, some, List, [], ◌∷◌, ◌++◌, map, arith,
  append-nil,
}
use lemuel_quant_core.Base.Bytes.{Bytes, lit, bytes_eq_iff}
use lemuel_quant_core.Base.Maps.{list_at}
use lemuel_quant_core.News.Rss.{RssSource, Article, fetch, hydrate_body}
use lemuel_quant_core.News.Score.{Weight, Entry, ScoredArticle, ingest, to_int}
use lemuel_quant_core.News.Score.Prune.{mentioned, list_at-ingest}
use lemuel_quant_core.News.Sentiment.{Result}
use lemuel_quant_core.News.Tagger.{ByAlias, Mention, int_rank, lookup}
use lemuel_quant_core.News.Tagger.Spans.{Fits, tag-hits}
use lemuel_quant_core.News.Cycle.{on_article, on_articles, cycle}

module _ {ℓ} {D : Type ℓ} ⦃w : Weight D⦄ where
  mentioned_unknown :
      (c : Bytes) (e : Entry D) (hits : List Mention)
      → ((h : Mention) → Mem h hits → h.ticker ≢ c)
      → mentioned c e (map (λ m. m.ticker) hits) ≡ []
  mentioned_unknown c e [] n = refl
  mentioned_unknown c e (h ∷ hits) n =
      let rest = mentioned_unknown c e hits (λ k i. n k (mem-cons_of_mem h i)) in
      let other = n h mem-cons_self in ground (arith, bytes_eq_iff h.ticker c)

module _ {ℓ} {D : Type ℓ} ⦃w : Weight D⦄ (by_size : List Bytes → List Bytes)
    (by_start : List Mention → List Mention) (size_perm : (l : List Bytes) → Perm (by_size l) l)
    (start_perm : (l : List Mention) → Perm (by_start l) l)
    (start_sorted : (l : List Mention)
      → Pairwise (λ h k. int_rank h.span_start ≤ int_rank k.span_start) (by_start l))
    (ner : ByAlias) (scorer : Bytes → Result D) (http_get : Bytes → Bytes)
    (published_at : Article → ℕ) (fits : (art : Article) → Fits (hydrate_body http_get art).body)
    (c : Bytes) (unknown : (k : Bytes) (v : Bytes × Bytes) → lookup k ner ≡ some v → v.1 ≢ c) where
  open w use {is_nought, of_int, times}

  on_article-unknown :
      (art : Article) (board : List (Bytes × List (Entry D)))
      → (new : List (Bytes × List (Entry D))) × (on_article by_size by_start ner scorer http_get
            published_at art board
          ≡ some new)
        × (list_at c new ≡ list_at c board)
  unfolding on_article
  on_article-unknown art board =
      let article = hydrate_body http_get art in
      let (hits, e, spans, _) =
        tag-hits by_size by_start size_perm start_perm start_sorted ner article.body (fits art) in
      let s = scorer (article.title ++ (lit "\n" ++ article.body)) in
      let a : ScoredArticle D = record {
        mentions = map (λ m. m.ticker) hits;
        sentiment = s.label;
        sentiment_confidence = s.confidence;
        published_at = published_at article;
      } in
      let x = times (of_int (to_int s.label)) s.confidence in
      let nothing : mentioned c (record { contribution = x; ts = published_at article }) a.mentions
          ≡ [] =
        mentioned_unknown c _ hits (λ h i. unknown _ (h.corp_name, h.ticker) (spans h i).2) in
      (
        ingest a board,
        rw (e, on_article) refl,
        list_at-ingest c a board ∙ elim (Bool-cases (is_nought x)) [
          | inl t ↦ rw t refl
          | inr f ↦ rw (f, nothing) (append-nil (list_at c board))
        ],
      )

  on_articles-unknown :
      (articles : List Article) (board : List (Bytes × List (Entry D)))
      → (new : List (Bytes × List (Entry D))) × (on_articles by_size by_start ner scorer http_get
            published_at articles board
          ≡ some new)
        × (list_at c new ≡ list_at c board)
  unfolding on_articles
  on_articles-unknown [] board = (board, refl, refl)
  on_articles-unknown (art ∷ articles) board =
      let (new1, e1, k1) = on_article-unknown art board in
      let (new2, e2, k2) = on_articles-unknown articles new1 in
      (new2, rw (e1, on_articles) e2, k2 ∙ k1)

  -- If every offset of an article's text is an `int`, and the two sorts of the tagger reorder their lists
  -- and the second one sorts by the start: a round over any feeds throws nothing, and it leaves the entries of each ticker alone
  -- that no alias of the dictionary stands for.
  cycle-unknown :
      (sources : List RssSource) (board : List (Bytes × List (Entry D)))
      → (new : List (Bytes × List (Entry D))) × (cycle by_size by_start ner scorer http_get
            published_at sources board
          ≡ some new)
        × (list_at c new ≡ list_at c board)
  unfolding cycle
  cycle-unknown sources board = on_articles-unknown (fetch http_get sources) board
