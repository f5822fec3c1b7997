-- ===== src/News/Tokens/Shape.antt =====
-- The lengths of the model's inputs, and the rounds of the loop of `encode`
-- (modules/news-pipeline/src/finbert.cpp).
use lemuel_quant_core.Base.{
  ℕ, zero, suc, ◌-◌, ◌≤◌, ◌<◌, min, max, ◌≡◌, refl, ◌∙◌, ap, ltb, some, List, [], ◌∷◌, ◌++◌, length,
  take, drop, arith, length-append, length-replicate, replicate, length-drop, length-map,
  Bool-cases, Option-cases, inl, inr, ltb→lt,
}
use lemuel_quant_core.Base.Bytes.{Bytes}
use lemuel_quant_core.News.Tokens.{
  Tokenizer, skip_blanks, longest, token, lookup, encode_loop, encode, fill, inputs,
}

encode_loop_bound :
    (fuel : ℕ) (t : Tokenizer) (max_len size : ℕ) (s : Bytes)
    → length (encode_loop fuel t max_len size s) ≤ max_len - 1 - size
unfolding encode_loop
encode_loop_bound zero t max_len size s = omega arith
encode_loop_bound (suc fuel) t max_len size s = elim (Bool-cases (ltb (suc size) max_len)) [
  | inr e ↦ rw (e, encode_loop) (omega arith)
  | inl lt ↦ elim (Option-cases (token t (skip_blanks s))) [
    | inl e ↦ rw (lt, e, encode_loop) (omega arith)
    | inr ((id, n), e) ↦
        rw (lt, e, encode_loop)
          (omega (
            arith,
            ltb→lt (suc size) max_len lt,
            encode_loop_bound fuel t max_len (suc size) (drop n (skip_blanks s)),
          ))
  ]
]

skip_blanks_bound : (s : Bytes) → length (skip_blanks s) ≤ length s
skip_blanks_bound [] = omega arith
skip_blanks_bound (c ∷ s) = ground (arith, skip_blanks_bound s)

longest_pos :
    (ids : List (Bytes × ℕ)) (n : ℕ) (s : Bytes) (id k : ℕ) → longest ids n s ≡ some (id, k) → 0 < k
longest_pos ids zero s id k h = cc
longest_pos ids (suc n) s id k h = elim (Option-cases (lookup (take (suc n) s) ids)) [
  | inl e ↦ longest_pos ids n s id k (rw (e, longest) at h)
  | inr (i, e) ↦ ground (arith, e)
]

token_pos :
    (t : Tokenizer) (s : Bytes) (id k : ℕ) → token t s ≡ some (id, k) → (0 < k) × (0 < length s)
token_pos t [] id k h = cc
token_pos t (c ∷ s) id k h = elim (Option-cases (longest t.ids (min (length (c ∷ s)) 16) (c ∷ s))) [
  | inl e ↦ (ground (arith, e), omega arith)
  | inr ((i, n), e) ↦
      (ground (arith, e, longest_pos t.ids (min (length (c ∷ s)) 16) (c ∷ s) i n e), omega arith)
]

-- The loop of `encode` ends: each round takes a byte of the text, so any two numbers of rounds above the
-- length of the text give the same ids.
encode_loop_enough :
    (f g : ℕ) (t : Tokenizer) (max_len size : ℕ) (s : Bytes)
    → length s < f
    → length s < g
    → encode_loop f t max_len size s ≡ encode_loop g t max_len size s
unfolding encode_loop
encode_loop_enough zero g t max_len size s hf hg = absurd (omega arith)
encode_loop_enough (suc f) zero t max_len size s hf hg = absurd (omega arith)
encode_loop_enough (suc f) (suc g) t max_len size s hf hg =
    elim (Bool-cases (ltb (suc size) max_len)) [
      | inr e ↦ rw (e, encode_loop) refl
      | inl lt ↦ elim (Option-cases (token t (skip_blanks s))) [
        | inl e ↦ rw (lt, e, encode_loop) refl
        | inr ((id, n), e) ↦
            let (pos_n, pos_s) = token_pos t (skip_blanks s) id n e in
            let shorter : suc (length (drop n (skip_blanks s))) ≤ length s =
              omega (arith, length-drop n (skip_blanks s), skip_blanks_bound s) in
            rw (lt, e, encode_loop)
              (ap (◌∷◌ id) (
                encode_loop_enough f g t max_len (suc size) (drop n (skip_blanks s)) (omega arith)
                  (omega arith)))
      ]
    ]

length-fill :
    (max_len pad : ℕ) (ids : List ℕ) → length (fill max_len pad ids) ≡ max (length ids) max_len
length-fill max_len pad ids = omega (
  arith,
  length-append ids (replicate (max_len - length ids) pad),
  length-replicate (max_len - length ids) pad,
)

length-encode :
    (t : Tokenizer) (text : Bytes) (max_len : ℕ) → length (encode t text max_len) ≡ max 2 max_len
unfolding encode
length-encode t text max_len =
    let body = encode_loop (suc (length text)) t max_len 1 text in
    omega (
      arith,
      length-fill max_len t.pad (t.cls ∷ (body ++ t.sep ∷ [])),
      length-append body (t.sep ∷ []),
      encode_loop_bound (suc (length text)) t max_len 1 text,
    )

-- For any text, the three inputs of the model have as many elements as the shape [1, max_seq_len] says,
-- if that is at least two.
length-inputs :
    (t : Tokenizer) (text : Bytes) (max_seq_len : ℕ)
    → 2 ≤ max_seq_len
    → (length (inputs t text max_seq_len).input_ids ≡ max_seq_len)
      × (length (inputs t text max_seq_len).attention_mask ≡ max_seq_len)
      × (length (inputs t text max_seq_len).token_type_ids ≡ max_seq_len)
unfolding inputs
length-inputs t text n h =
    let e : length (encode t text n) ≡ n = omega (arith, length-encode t text n) in
    (e, length-map (encode t text n) _ ∙ e, length-map (encode t text n) _ ∙ e)
