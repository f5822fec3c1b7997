-- ===== src/News/Tokens.antt =====
-- `Tokenizer` and what `FinBertOnnx::predict` hands to the model
-- (modules/news-pipeline/src/finbert.cpp). The lines of the vocabulary file are an argument.
pub mod Shape
use lemuel_quant_core.Base.{
  ℕ, zero, suc, ◌-◌, min, Bool, true, false, ◌||◌, ◌==◌, ltb, if◌then◌else◌, Option, none, some,
  List, [], ◌∷◌, ◌++◌, length, take, drop, replicate, map,
}
use lemuel_quant_core.Base.Bytes.{Bytes, bytes_eq, lit}

pub record Tokenizer : Type 0 where
  pub ids : List (Bytes × ℕ)
  pub cls : ℕ
  pub sep : ℕ
  pub pad : ℕ
  pub unk : ℕ

abbrev lookup : Bytes → List (Bytes × ℕ) → Option ℕ
lookup k [] = none
lookup k ((t, id) ∷ ids) = if bytes_eq t k then some id else lookup k ids

-- `ids_[tok] = id++` for each line: a line that comes again has the last of its ids.
abbrev number_lines : ℕ → List Bytes → List (Bytes × ℕ) → List (Bytes × ℕ)
number_lines id [] ids = ids
number_lines id (tok ∷ toks) ids = number_lines (suc id) toks ((tok, id) ∷ ids)

-- A special id that the vocabulary lacks stays 0.
abbrev special : Bytes → List (Bytes × ℕ) → ℕ
special name ids = elim (lookup name ids) [ none ↦ 0 | some id ↦ id ]

unfoldable pub load : List Bytes → Tokenizer
load lines =
    let ids = number_lines 0 lines [] in
    record {
      ids = ids;
      cls = special (lit "[CLS]") ids;
      sep = special (lit "[SEP]") ids;
      pad = special (lit "[PAD]") ids;
      unk = special (lit "[UNK]") ids;
    }

abbrev pub skip_blanks : Bytes → Bytes
skip_blanks [] = []
skip_blanks (c ∷ s) = if c == 0x20 || c == 0x0A || c == 0x09 then skip_blanks s else c ∷ s

-- `for (; end > i; --end)`: the id and the size of the longest piece of at most `n` bytes.
abbrev longest : List (Bytes × ℕ) → ℕ → Bytes → Option (ℕ × ℕ)
longest ids zero s = none
longest ids (suc n) s = elim (lookup (take (suc n) s) ids) [
  | some id ↦ some (id, suc n)
  | none ↦ longest ids n s
]

-- The next token behind the blanks, and how many bytes it takes; none at the end of the text.
abbrev pub token : Tokenizer → Bytes → Option (ℕ × ℕ)
token t [] = none
token t (c ∷ s) = elim (longest t.ids (min (length (c ∷ s)) 16) (c ∷ s)) [
  | none ↦ some (t.unk, 1)
  | some hit ↦ some hit
]

-- The loop over the text, which has pushed `size` ids; on fuel.
unfoldable pub encode_loop : ℕ → Tokenizer → ℕ → ℕ → Bytes → List ℕ
encode_loop zero t max_len size s = []
encode_loop (suc fuel) t max_len size s = elim (ltb (suc size) max_len) [
  | false ↦ []
  | true ↦ elim (token t (skip_blanks s)) [
    | none ↦ []
    | some (id, n) ↦ id ∷ encode_loop fuel t max_len (suc size) (drop n (skip_blanks s))
  ]
]

-- Fill up to the length.
abbrev pub fill : ℕ → ℕ → List ℕ → List ℕ
fill max_len pad ids = ids ++ replicate (max_len - length ids) pad

unfoldable pub encode : Tokenizer → Bytes → ℕ → List ℕ
unfolding encode_loop
encode t text max_len =
    fill max_len t.pad (t.cls ∷ (encode_loop (suc (length text)) t max_len 1 text ++ t.sep ∷ []))

-- The three inputs: `input_ids`, `attention_mask` and `token_type_ids`.
pub record Inputs : Type 0 where
  pub input_ids : List ℕ
  pub attention_mask : List ℕ
  pub token_type_ids : List ℕ

unfoldable pub inputs : Tokenizer → Bytes → ℕ → Inputs
unfolding encode
inputs t text max_seq_len =
    let ids = encode t text max_seq_len in
    record {
      input_ids = ids;
      attention_mask = map (λ id. if id == t.pad then 0 else 1) ids;
      token_type_ids = map (λ id. 0) ids;
    }
