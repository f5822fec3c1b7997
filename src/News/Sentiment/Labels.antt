-- ===== src/News/Sentiment/Labels.antt =====
-- What the labels of the scorers say (modules/news-pipeline/include/news/finbert.hpp,
-- modules/news-pipeline/src/sentiment.cpp).
use lemuel_quant_core.Base.{◌≡◌, true, false, not, arith}
use lemuel_quant_core.News.Score.{Weight, Sentiment, negative, neutral, positive}
use lemuel_quant_core.News.Sentiment.{Likelihood, Probs, argmax_label, max_prob, max_of}

module _ {ℓ} {D : Type ℓ} ⦃w : Weight D⦄ ⦃l : Likelihood D⦄ where
  open l use {ge, less}

  abbrev prob_of : Sentiment → Probs D → D
  prob_of negative p = p.negative_prob
  prob_of neutral p = p.neutral_prob
  prob_of positive p = p.positive_prob

  module _ (total : (a b : D) → ge a b ≡ false → ge b a ≡ true)
      (through : (a b c : D) → ge a b ≡ true → ge b c ≡ true → ge a c ≡ true)
      (less-ge : (a b : D) → less a b ≡ not (ge a b)) where
    max_of-ge : (a b : D) → (ge (max_of a b) a ≡ true) × (ge (max_of a b) b ≡ true)
    max_of-ge a b = ground (arith, less-ge a b, total a b, total a a, total b b)

    argmax_ge : (p : Probs D) (s : Sentiment) → ge (prob_of (argmax_label p) p) (prob_of s p) ≡ true
    argmax_ge p negative =
        let n = p.negative_prob in
        let u = p.neutral_prob in
        let q = p.positive_prob in
        ground (
          arith,
          total q n,
          total q u,
          total n u,
          total n n,
          total u u,
          total q q,
          through n u q,
          through u n q,
        )
    argmax_ge p neutral =
        let n = p.negative_prob in
        let u = p.neutral_prob in
        let q = p.positive_prob in
        ground (
          arith,
          total q n,
          total q u,
          total n u,
          total n n,
          total u u,
          total q q,
          through n u q,
          through u n q,
        )
    argmax_ge p positive =
        let n = p.negative_prob in
        let u = p.neutral_prob in
        let q = p.positive_prob in
        ground (
          arith,
          total q n,
          total q u,
          total n u,
          total n n,
          total u u,
          total q q,
          through n u q,
          through u n q,
        )

    max_prob_among :
        (p : Probs D) (a : D)
        → ((s : Sentiment) → ge a (prob_of s p) ≡ true)
        → ge a (max_prob p) ≡ true
    max_prob_among p a h =
        let n = p.negative_prob in
        let u = p.neutral_prob in
        let q = p.positive_prob in ground (arith, h negative, h neutral, h positive)

    max_prob_ge : (p : Probs D) (s : Sentiment) → ge (max_prob p) (prob_of s p) ≡ true
    max_prob_ge p negative =
        let n = p.negative_prob in
        let u = p.neutral_prob in
        let q = p.positive_prob in
        through _ (max_of n u) n (max_of-ge (max_of n u) q).0 (max_of-ge n u).0
    max_prob_ge p neutral =
        let n = p.negative_prob in
        let u = p.neutral_prob in
        let q = p.positive_prob in
        through _ (max_of n u) u (max_of-ge (max_of n u) q).0 (max_of-ge n u).1
    max_prob_ge p positive =
        let n = p.negative_prob in
        let u = p.neutral_prob in let q = p.positive_prob in (max_of-ge (max_of n u) q).1

    -- If `>=` is a total order and `<` its negation: the probability of the label that is chosen is at
    -- least that of each label, and it is as large as the confidence.
    argmax_label_lem :
        (p : Probs D)
        → ((s : Sentiment) → ge (prob_of (argmax_label p) p) (prob_of s p) ≡ true)
          × (ge (prob_of (argmax_label p) p) (max_prob p) ≡ true)
          × (ge (max_prob p) (prob_of (argmax_label p) p) ≡ true)
    argmax_label_lem p =
        (argmax_ge p, max_prob_among p _ (argmax_ge p), max_prob_ge p (argmax_label p))
