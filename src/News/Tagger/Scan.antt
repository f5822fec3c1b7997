-- ===== src/News/Tagger/Scan.antt =====
-- The searches of the tagger (modules/news-pipeline/src/ner.cpp): what an occurrence is, and how many
-- rounds find all of them.
use lemuel_quant_core.Base.{
  ℕ, zero, suc, ◌+◌, ◌≤◌, ◌<◌, ◌≡◌, refl, sym, ap, ◌∙◌, true, false, some, Option-cases, Bool-cases,
  Bool, inl, inr, [], ◌∷◌, arith, length, take, drop, leb, leb→le, ◌==◌, ==_iff, length-drop,
}
use lemuel_quant_core.Base.Bytes.{Bytes, find, find_from, starts_with, substr}
use lemuel_quant_core.News.Tagger.{ByAlias, Scanned, occurrence, scan, overlaps}

starts_with-take :
    (a s : Bytes) → starts_with a s ≡ true → (take (length a) s ≡ a) × (length a ≤ length s)
starts_with-take [] s h = (refl, omega arith)
starts_with-take (x ∷ a) [] h = absurd cc
starts_with-take (x ∷ a) (c ∷ s) h =
    let (e, l) = starts_with-take a s (ground arith) in
    (ground (arith, ==_iff x c, e), omega (arith, l))

find-occurs :
    (a s : Bytes) (i : ℕ)
    → find a s ≡ some i
    → (substr s i (length a) ≡ a) × (i + length a ≤ length s)
find-occurs a [] i h = elim (Bool-cases (starts_with a [])) [
  | inl t ↦ let (e, l) = starts_with-take a [] t in ground (arith, e, l)
  | inr f ↦ ground arith
]
find-occurs a (c ∷ s) i h = elim (Bool-cases (starts_with a (c ∷ s))) [
  | inl t ↦ let (e, l) = starts_with-take a (c ∷ s) t in ground (arith, e, l)
  | inr f ↦ elim (Option-cases (find a s)) [
    | inl n ↦ ground (arith, n)
    | inr (j, ej) ↦ let (e, l) = find-occurs a s j ej in ground (arith, e, l)
  ]
]

drop-drop : (p i n : ℕ) (s : Bytes) → n ≡ p + i → drop i (drop p s) ≡ drop n s
drop-drop zero i n s h = let e : i ≡ n = omega arith in rw e refl
drop-drop (suc p) i zero s h = absurd (omega arith)
drop-drop (suc p) zero (suc n) [] h = refl
drop-drop (suc p) (suc i) (suc n) [] h = refl
drop-drop (suc p) i (suc n) (c ∷ s) h = drop-drop p i n s (omega arith)

-- A search from a position finds, at or behind it and inside the text, what it looks for.
pub find_from-occurs :
    (a s : Bytes) (p q : ℕ)
    → find_from a s p ≡ some q
    → (p ≤ q) × (substr s q (length a) ≡ a) × (q + length a ≤ length s)
find_from-occurs a s p q h = elim (Bool-cases (leb p (length s))) [
  | inr f ↦ ground arith
  | inl t ↦ elim (Option-cases (find a (drop p s))) [
    | inl n ↦ ground (arith, n)
    | inr (i, ei) ↦
        let (e, l) = find-occurs a (drop p s) i ei in
        let at : p + i ≡ q = ground (arith, ei) in
        (
          omega arith,
          ap (take (length a)) (sym (drop-drop p i q s (sym at))) ∙ e,
          omega (arith, length-drop p s, leb→le p (length s) t),
        )
  ]
]

pub overlaps_none :
    (n p : ℕ) (consumed : ℕ → Bool)
    → overlaps n p consumed ≡ false
    → (i : ℕ) → p ≤ i
    → i < p + n
    → consumed i ≡ false
overlaps_none zero p c h i l u = absurd (omega arith)
overlaps_none (suc n) p c h i l u = elim (Bool-cases (p == i)) [
  | inl t ↦ ground (arith, ==_iff p i)
  | inr f ↦ overlaps_none n (suc p) c (ground arith) i (ground arith) (omega arith)
]

scan_end :
    (f : ℕ) (m : ByAlias) (a body : Bytes) (p : ℕ) (st : Scanned)
    → length body < p
    → scan f m a body p st ≡ some st
unfolding scan
scan_end zero m a body p st h = refl
scan_end (suc f) m a body p st h =
    let outside : leb p (length body) ≡ false = ground arith in rw (outside, find_from, scan) refl

-- Once there are more rounds than bytes behind the position, further rounds change nothing.
pub scan_enough :
    (f g : ℕ) (m : ByAlias) (a body : Bytes) (p : ℕ) (st : Scanned)
    → 0 < length a
    → length body < f + p
    → length body < g + p
    → scan f m a body p st ≡ scan g m a body p st
unfolding scan
scan_enough zero g m a body p st ha hf hg = sym (scan_end g m a body p st (omega arith))
scan_enough (suc f) zero m a body p st ha hf hg = scan_end (suc f) m a body p st (omega arith)
scan_enough (suc f) (suc g) m a body p st ha hf hg = elim (Option-cases (find_from a body p)) [
  | inl n ↦ rw (n, scan) refl
  | inr (q, e) ↦
      let (low, text, high) = find_from-occurs a body p q e in
      elim (Option-cases (occurrence m a q st)) [
        | inl n ↦ rw (e, n, scan) refl
        | inr (st2, e2) ↦
            rw (e, e2, scan)
              (scan_enough f g m a body (q + length a) st2 ha (omega arith) (omega arith))
      ]
]
