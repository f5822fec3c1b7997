-- ===== src/News/Sentiment.antt =====
-- The sentiment scorers (modules/news-pipeline/src/sentiment.cpp,
-- modules/news-pipeline/include/news/finbert.hpp, modules/news-pipeline/src/finbert.cpp). A `double` is a
-- type with the operations that are used; loading a model and running it are arguments.
pub mod Labels
use lemuel_quant_core.Base.{
  ℕ, zero, suc, ◌+◌, ◌-◌, ◌*◌, Bool, true, false, ◌&&◌, ◌==◌, ltb, leb, if◌then◌else◌, Option, none,
  some, List, [], ◌∷◌, ◌++◌,
}
use lemuel_quant_core.Base.Int.{pos}
use lemuel_quant_core.Base.Bytes.{Bytes, lit, contains, is_empty}
use lemuel_quant_core.News.Score.{Weight, Sentiment, negative, neutral, positive}
use lemuel_quant_core.News.Tokens.{Tokenizer, Inputs, inputs}

-- What the scorers use of `double` beyond the score board; `ge` is `>=` and
-- `less` is `<`.
pub record Likelihood {ℓ} (D : Type ℓ) : Type ℓ where
  pub one : D
  pub tenth : D
  pub minus : D → D → D
  pub divide : D → D → D
  pub exp : D → D
  pub ge : D → D → Bool
  pub less : D → D → Bool

pub record Result {ℓ} (D : Type ℓ) : Type ℓ where
  pub label : Sentiment
  pub confidence : D

pub record Probs {ℓ} (D : Type ℓ) : Type ℓ where
  pub negative_prob : D
  pub neutral_prob : D
  pub positive_prob : D

abbrev positive_words : List Bytes
positive_words =
    lit "상승"
    ∷ lit "급등"
    ∷ lit "호실적"
    ∷ lit "성장"
    ∷ lit "흑자"
    ∷ lit "수주"
    ∷ lit "확대"
    ∷ lit "신고가"
    ∷ lit "최고"
    ∷ lit "회복"
    ∷ lit "개선"
    ∷ lit "달성"
    ∷ []

abbrev negative_words : List Bytes
negative_words =
    lit "하락"
    ∷ lit "급락"
    ∷ lit "적자"
    ∷ lit "악재"
    ∷ lit "감산"
    ∷ lit "감원"
    ∷ lit "리콜"
    ∷ lit "신저가"
    ∷ lit "부진"
    ∷ lit "악화"
    ∷ lit "충격"
    ∷ lit "우려"
    ∷ lit "조사"
    ∷ lit "처분"
    ∷ []

-- How many of the words the text has.
abbrev count_words : List Bytes → Bytes → ℕ
count_words [] text = 0
count_words (w ∷ words) text =
    let n = count_words words text in if contains w text then suc n else n

-- `s > 0.1` and `s < -0.1` for s = (p - n) / (p + n), exact for counts up to the sizes of the sets.
abbrev label_of : ℕ → ℕ → Sentiment
label_of p n =
    if ltb (p + n) (10 * (p - n))
    then positive
    else if ltb (p + n) (10 * (n - p))
    then negative
    else neutral

module _ {ℓ} {D : Type ℓ} ⦃w : Weight D⦄ ⦃l : Likelihood D⦄ where
  open w use {nought, of_int, plus, times}
  open l use {one, tenth, minus, divide, exp, ge, less}

  -- `std::min` and `std::max`
  abbrev min_of : D → D → D
  min_of a b = if less b a then b else a

  abbrev pub max_of : D → D → D
  max_of a b = if less a b then b else a

  -- The confidence of the lexicon, where |p - n| / (p + n) is the size of `s`.
  abbrev lexicon_confidence : ℕ → ℕ → D
  lexicon_confidence p n =
      let total = of_int (pos (p + n)) in
      let size = divide (of_int (pos ((p - n) + (n - p)))) total in
      min_of one (plus size (times tenth total))

  -- `LexiconScorer::score`
  unfoldable lexicon_score : Bytes → Result D
  lexicon_score text =
      let p = count_words positive_words text in
      let n = count_words negative_words text in
      if p == 0 && n == 0
      then record { label = neutral; confidence = nought }
      else record { label = label_of p n; confidence = lexicon_confidence p n }

  abbrev pub argmax_label : Probs D → Sentiment
  argmax_label p =
      if ge p.positive_prob p.negative_prob && ge p.positive_prob p.neutral_prob
      then positive
      else if ge p.negative_prob p.neutral_prob
      then negative
      else neutral

  -- `confidence()`
  abbrev pub max_prob : Probs D → D
  max_prob p = max_of (max_of p.negative_prob p.neutral_prob) p.positive_prob

  unfoldable softmax3 : D → D → D → Probs D
  softmax3 l0 l1 l2 =
      let m = max_of (max_of l0 l1) l2 in
      let e0 = exp (minus l0 m) in
      let e1 = exp (minus l1 m) in
      let e2 = exp (minus l2 m) in
      let s = plus (plus e0 e1) e2 in
      record {
        negative_prob = divide e0 s;
        neutral_prob = divide e1 s;
        positive_prob = divide e2 s;
      }

  -- `FinBertOnnx::predict`: `run` gives the three logits of the model.
  unfoldable pub predict : (Inputs → D × D × D) → Tokenizer → ℕ → Bytes → Probs D
  unfolding softmax3 inputs
  predict run tokenizer max_seq_len text =
      let (l0, l1, l2) = run (inputs tokenizer text max_seq_len) in softmax3 l0 l1 l2

  -- `FinBertModel::load`: opening a session of ONNX Runtime may throw, and the vocabulary is read from a
  -- file; without ONNX Runtime there is no model, which is `open_session` giving none.
  unfoldable load_model :
      (Bytes → Option (Inputs → D × D × D))
      → (Bytes → Tokenizer)
      → Bytes
      → ℕ
      → Option (Bytes → Probs D)
  unfolding predict
  load_model open_session read_vocab model_dir max_seq_len =
      elim (open_session (model_dir ++ lit "/kr-finbert.onnx")) [
        | none ↦ none
        | some run ↦
            some (predict run (read_vocab (model_dir ++ lit "/kr-finbert.vocab")) max_seq_len)
      ]

  unfoldable predict_batch : (Bytes → Probs D) → List Bytes → List (Probs D)
  predict_batch predict_one [] = []
  predict_batch predict_one (t ∷ texts) = predict_one t ∷ predict_batch predict_one texts

  -- `FinBertScorer::score`; a scorer without a model is neutral.
  unfoldable finbert_score : Option (Bytes → Probs D) → Bytes → Result D
  finbert_score none text = record { label = neutral; confidence = nought }
  finbert_score (some model) text =
      let p = model text in record { label = argmax_label p; confidence = max_prob p }

  -- `make_finbert`, as the scores of the scorer that it makes.
  unfoldable make_finbert : (Bytes → Option (Bytes → Probs D)) → Bytes → Bytes → Result D
  unfolding finbert_score lexicon_score
  make_finbert load model_dir = elim (load model_dir) [
    | none ↦ lexicon_score
    | some model ↦ finbert_score (some model)
  ]

  unfoldable make_default : (Bytes → Option (Bytes → Probs D)) → Bytes → Bytes → Result D
  unfolding make_finbert
  make_default load model_dir =
      if is_empty model_dir then lexicon_score else make_finbert load model_dir
