-- ===== src/News/Tagger/Longest.antt =====
-- The rule of the longest alias in `tag` (modules/news-pipeline/src/ner.cpp).
use mathlib.Core.List.{
  Mem, Mem-prop, Perm, Pairwise, mem-cons, not-mem-nil, mem-cons_self, mem-cons_of_mem,
  rel_of_Pairwise-cons,
}
use mathlib.Core.List.Pairwise
use mathlib.Core.List.Perm
use mathlib.Core.Logic.Or
use lemuel_quant_core.Base.{
  ℕ, zero, suc, ◌+◌, ◌≤◌, ◌<◌, ◌≡◌, ◌≢◌, refl, sym, subst, ◌∙◌, true, false, Option, some, none,
  Option-cases, Bool-cases, inl, inr, List, [], ◌∷◌, arith, length,
}
use lemuel_quant_core.Base.Bytes.{Bytes, bytes_eq, bytes_eq_iff, find, find_from}
use lemuel_quant_core.News.Tagger.{
  ByAlias, Mention, Scanned, as_int, lookup, keys, overlaps, fill, occurrence, scan, scan_all, tag,
}
use lemuel_quant_core.News.Tagger.Scan.{find_from-occurs}
use lemuel_quant_core.News.Tagger.Spans.{
  Fits, Good, Good-start, is_known, keys-known, occurrence_lem, scan_lem, scan_all_lem,
}

find_from_zero : (a s : Bytes) → find_from a s 0 ≡ find a s
find_from_zero a s = elim (Option-cases (find a s)) [
  | inl n ↦ ground (arith, n)
  | inr (i, e) ↦ ground (arith, e)
]

overlaps_start : (n p : ℕ) → overlaps n p (λ i. false) ≡ false
overlaps_start zero p = refl
overlaps_start (suc n) p = overlaps_start n (suc p)

abbrev hits_of : Option Scanned → List Mention
hits_of none = []
hits_of (some st) = st.0

abbrev pub mention_at : Bytes → Bytes × Bytes → ℕ → Mention
mention_at a v p = record { ticker = v.1; corp_name = v.0; span_start = p; span_end = p + length a }

occurrence_start :
    (m : ByAlias) (a : Bytes) (v : Bytes × Bytes) (p : ℕ)
    → p + length a < 2_147_483_648
    → lookup a m ≡ some v
    → occurrence m a p ([], λ i. false)
      ≡ some (mention_at a v p ∷ [], fill p (p + length a) (λ i. false))
unfolding occurrence
occurrence_start m a v p small known =
    let start : as_int p ≡ p = omega arith in
    let end : as_int (p + length a) ≡ p + length a = omega arith in
    rw (overlaps_start (length a) p, known, start, end, occurrence) refl

-- Nothing is found for an alias that does not occur.
scan_absent :
    (n : ℕ) (m : ByAlias) (a body : Bytes) (st : Scanned)
    → find a body ≡ none
    → scan (suc n) m a body 0 st ≡ some st
unfolding scan
scan_absent n m a body st h =
    let e : find_from a body 0 ≡ none = find_from_zero a body ∙ h in rw (e, scan) refl

scan_all_step :
    (m : ByAlias) (body b : Bytes) (aliases : List Bytes) (st st1 : Scanned)
    → 0 < length b
    → scan (suc (length body)) m b body 0 st ≡ some st1
    → scan_all m body (b ∷ aliases) st ≡ scan_all m body aliases st1
unfolding scan_all
scan_all_step m body [] aliases st st1 h e = absurd (omega arith)
scan_all_step m body (c ∷ b) aliases st st1 h e = rw (e, scan_all) refl

module _ (m : ByAlias) (body a : Bytes) (v : Bytes × Bytes) (p : ℕ) (known : lookup a m ≡ some v)
    (some_byte : 0 < length a) (fits : Fits body) (first : find a body ≡ some p) where
  scan_first :
      (new : Scanned) × (scan (suc (length body)) m a body 0 ([], λ i. false) ≡ some new)
      × Good m body new
      × Mem (mention_at a v p) new.0
  unfolding scan
  scan_first =
      let e : find_from a body 0 ≡ some p = find_from_zero a body ∙ first in
      let (low, text, inside) = find_from-occurs a body 0 p e in
      let (st1, e1, g1, k1) =
        occurrence_lem m body a p v ([], λ i. false) known some_byte text inside
          (Good-start m body fits) in
      let (st2, e2, g2, k2) =
        scan_lem (length body) m body a (p + length a) v st1 known some_byte g1 in
      let same : some st1 ≡ some (mention_at a v p ∷ [], fill p (p + length a) (λ i. false)) =
        sym e1 ∙ occurrence_start m a v p (omega (arith, inside, fits)) known in
      (
        st2,
        rw (e, e1, scan) e2,
        g2,
        k2 (mention_at a v p)
            (subst (λ o. Mem (mention_at a v p) (hits_of o)) (sym same) mem-cons_self),
      )

  scan_all_first :
      (aliases : List Bytes)
      → ((b : Bytes) → Mem b aliases → is_known m b ≡ true)
      → Pairwise (λ b c. length c ≤ length b) aliases
      → ((b : Bytes) → Mem b aliases → length a ≤ length b → b ≢ a → find b body ≡ none)
      → Mem a aliases
      → (new : Scanned) × (scan_all m body aliases ([], λ i. false) ≡ some new)
        × Mem (mention_at a v p) new.0
  scan_all_first [] k sorted others e = absurd (not-mem-nil e)
  scan_all_first (b ∷ aliases) k sorted others e = elim (Bool-cases (bytes_eq b a)) [
    | inl t ↦
        let (st1, e1, g1, i1) = scan_first in
        let (st2, e2, g2, k2) =
          scan_all_lem m body aliases st1 (λ c i. k c (mem-cons_of_mem b i)) g1 in
        let same : b ≡ a = (bytes_eq_iff b a).0 t in
        let found : scan (suc (length body)) m b body 0 ([], λ i. false) ≡ some st1 = rw same e1 in
        (
          st2,
          scan_all_step m body b aliases ([], λ i. false) st1 (rw same some_byte) found ∙ e2,
          k2 (mention_at a v p) i1,
        )
    | inr f ↦
        let prop : IsProp (Mem a aliases) = Mem-prop in
        let tail : Mem a aliases =
          Or.elim prop (mem-cons.0 e) (λ s. absurd (ground (arith, bytes_eq_iff b a))) (λ i. i) in
        let absent : find b body ≡ none =
          others b mem-cons_self (rel_of_Pairwise-cons sorted tail)
            (ground (arith, bytes_eq_iff b a)) in
        let (new, e2, i2) =
          scan_all_first aliases (λ c i. k c (mem-cons_of_mem b i)) (Pairwise.of_cons sorted)
            (λ c i. others c (mem-cons_of_mem b i)) tail in
        let longer : length a ≤ length b = rel_of_Pairwise-cons sorted tail in
        (
          new,
          scan_all_step m body b aliases ([], λ i. false) ([], λ i. false) (omega arith)
                (scan_absent (length body) m b body ([], λ i. false) absent)
              ∙ e2,
          i2,
        )
  ]

module _ (by_size : List Bytes → List Bytes) (by_start : List Mention → List Mention)
    (size_perm : (l : List Bytes) → Perm (by_size l) l)
    (size_sorted : (l : List Bytes) → Pairwise (λ b c. length c ≤ length b) (by_size l))
    (start_perm : (l : List Mention) → Perm (by_start l) l) where
  -- If every offset of the text is an `int`, and the two sorts reorder their lists and the first one puts
  -- longer texts first: an alias that occurs
  -- in the text is mentioned at its first occurrence, unless another alias that is as long or longer
  -- occurs too.
  pub tag-longest :
      (m : ByAlias) (body a : Bytes) (v : Bytes × Bytes) (p : ℕ)
      → Mem a (keys m)
      → lookup a m ≡ some v
      → 0 < length a
      → Fits body
      → find a body ≡ some p
      → ((b : Bytes) → Mem b (keys m) → length a ≤ length b → b ≢ a → find b body ≡ none)
      → (hits : List Mention) × (tag by_size by_start m body ≡ some hits)
        × Mem (mention_at a v p) hits
  unfolding tag
  tag-longest m body a v p i known some_byte fits first others =
      let inside : (b : Bytes) → Mem b (by_size (keys m)) → Mem b (keys m) =
        λ b j. (Perm.mem_iff (size_perm (keys m))).0 j in
      let (st, e, h) =
        scan_all_first m body a v p known some_byte fits first (by_size (keys m))
          (λ b j. keys-known m b (inside b j)) (size_sorted (keys m)) (λ b j. others b (inside b j))
          ((Perm.mem_iff (size_perm (keys m))).1 i) in
      (by_start st.0, rw (e, tag) refl, (Perm.mem_iff (start_perm st.0)).1 h)
