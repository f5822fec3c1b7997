-- ===== src/Judge/Runner/Text.antt =====
-- How `normalize` (modules/judge-engine/src/runner.cpp) compares outputs.
use mathlib.Core.List.{reverse-append, reverse-reverse}
use lemuel_quant_core.Base.{
  ℕ, ◌≡◌, refl, sym, ap, subst, ◌∙◌, ◌≢◌, true, false, [], ◌∷◌, ◌++◌, reverse, arith, ◌==◌, All,
  All-append, inl, inr, Bool-cases, if◌then◌else◌,
}
use lemuel_quant_core.Base.Bytes.{Bytes}
use lemuel_quant_core.Judge.Runner.{drop_cr, is_blank, pop_blanks, normalize}

abbrev pub Blank : ℕ → Type 0
Blank c = is_blank c ≡ true

abbrev pub NotCr : ℕ → Type 0
NotCr c = c ≢ 0x0D

-- A byte that ends a line or pads it.
abbrev Padding : ℕ → Type 0
Padding c = (if c == 0x0D then true else is_blank c) ≡ true

-- The text does not end with a blank.
abbrev pub LastNotBlank : Bytes → Type 0
LastNotBlank [] = Unit
LastNotBlank (c ∷ []) = is_blank c ≡ false
LastNotBlank (c ∷ d ∷ s) = LastNotBlank (d ∷ s)

-- The second text is the first one less its carriage returns: every other byte is there, in its place.
pub data LessCr : Bytes → Bytes → Type 0 where
  nil : LessCr [] []
  skipped : {s t : Bytes} → LessCr s t → LessCr (0x0D ∷ s) t
  kept : {s t : Bytes} (c : ℕ) → c ≢ 0x0D → LessCr s t → LessCr (c ∷ s) (c ∷ t)

reverse-cons : (c : ℕ) (s : Bytes) → reverse (c ∷ s) ≡ reverse s ++ c ∷ []
reverse-cons c s = reverse-append (c ∷ []) s

All-reverse : (P : ℕ → Type 0) (s : Bytes) → All P s → All P (reverse s)
All-reverse P [] h = h
All-reverse P (c ∷ s) (p, ps) =
    rw (reverse-cons c s) (All-append P (reverse s) (c ∷ []) (All-reverse P s ps) (p, tt))

drop_cr-NotCr : (s : Bytes) → All NotCr (drop_cr s)
unfolding drop_cr
drop_cr-NotCr [] = tt
drop_cr-NotCr (c ∷ s) = elim (Bool-cases (c == 0x0D)) [
  | inl t ↦ rw (t, drop_cr) (drop_cr-NotCr s)
  | inr f ↦ rw (f, drop_cr) (ground arith, drop_cr-NotCr s)
]

drop_cr-LessCr : (s : Bytes) → LessCr s (drop_cr s)
unfolding drop_cr
drop_cr-LessCr [] = nil
drop_cr-LessCr (c ∷ s) = elim (Bool-cases (c == 0x0D)) [
  | inl t ↦
      let e : 0x0D ≡ c = ground arith in
      rw (t, drop_cr) (subst (λ x. LessCr (x ∷ s) (drop_cr s)) e (skipped (drop_cr-LessCr s)))
  | inr f ↦ rw (f, drop_cr) (kept c (ground arith) (drop_cr-LessCr s))
]

drop_cr_of_NotCr : (s : Bytes) → All NotCr s → drop_cr s ≡ s
unfolding drop_cr
drop_cr_of_NotCr [] h = refl
drop_cr_of_NotCr (c ∷ s) h = ground (arith, drop_cr_of_NotCr s)

drop_cr-append : (s t : Bytes) → drop_cr (s ++ t) ≡ drop_cr s ++ drop_cr t
unfolding drop_cr
drop_cr-append [] t = refl
drop_cr-append (c ∷ s) t = ground (arith, drop_cr-append s t)

pop_blanks-All : (P : ℕ → Type 0) (s : Bytes) → All P s → All P (pop_blanks s)
unfolding pop_blanks
pop_blanks-All P [] h = h
pop_blanks-All P (c ∷ s) (p, ps) = elim (Bool-cases (is_blank c)) [
  | inl t ↦ rw t (pop_blanks-All P s ps)
  | inr f ↦ rw f (p, ps)
]

pop_blanks_idem : (s : Bytes) → pop_blanks (pop_blanks s) ≡ pop_blanks s
unfolding pop_blanks
pop_blanks_idem [] = refl
pop_blanks_idem (c ∷ s) = elim (Bool-cases (is_blank c)) [
  | inl t ↦ rw t (pop_blanks_idem s)
  | inr f ↦ rw (f, f) refl
]

pop_blanks_append : (b s : Bytes) → All Blank b → pop_blanks (b ++ s) ≡ pop_blanks s
unfolding pop_blanks
pop_blanks_append [] s h = refl
pop_blanks_append (c ∷ b) s (p, ps) = rw p (pop_blanks_append b s ps)

-- What `pop_back` takes away.
pop_blanks_split : (s : Bytes) → (b : Bytes) × (s ≡ b ++ pop_blanks s) × All Blank b
unfolding pop_blanks
pop_blanks_split [] = ([], refl, tt)
pop_blanks_split (c ∷ s) = elim (Bool-cases (is_blank c)) [
  | inl t ↦ let (b, e, h) = pop_blanks_split s in (c ∷ b, rw t (ap (◌∷◌ c) e), (t, h))
  | inr f ↦ ([], rw f refl, tt)
]

LastNotBlank-snoc : (s : Bytes) (c : ℕ) → is_blank c ≡ false → LastNotBlank (s ++ c ∷ [])
LastNotBlank-snoc [] c h = h
LastNotBlank-snoc (d ∷ []) c h = h
LastNotBlank-snoc (d ∷ e ∷ s) c h = LastNotBlank-snoc (e ∷ s) c h

LastNotBlank-pop : (s : Bytes) → LastNotBlank (reverse (pop_blanks s))
unfolding pop_blanks
LastNotBlank-pop [] = tt
LastNotBlank-pop (c ∷ s) = elim (Bool-cases (is_blank c)) [
  | inl t ↦ rw t (LastNotBlank-pop s)
  | inr f ↦ rw (f, reverse-cons c s) (LastNotBlank-snoc (reverse s) c f)
]

normalize-NotCr : (s : Bytes) → All NotCr (normalize s)
unfolding normalize
normalize-NotCr s =
    All-reverse NotCr _ (pop_blanks-All NotCr _ (All-reverse NotCr _ (drop_cr-NotCr s)))

-- Normalising twice is normalising once.
normalize_idem : (s : Bytes) → normalize (normalize s) ≡ normalize s
unfolding normalize
normalize_idem s =
    let t = pop_blanks (reverse (drop_cr s)) in
    rw
      (
        drop_cr_of_NotCr (reverse t) (normalize-NotCr s),
        reverse-reverse t,
        pop_blanks_idem (reverse (drop_cr s)),
      )
      refl

-- Normalising takes away the carriage returns and then the blanks at the end, and nothing else: the
-- normal form with some blanks behind it is the text less its carriage returns, each other byte in its
-- place, and it has no carriage return and does not end with a blank.
pub normalize_lem :
    (s : Bytes)
    → (b : Bytes) × LessCr s (normalize s ++ b)
      × All Blank b
      × All NotCr (normalize s)
      × LastNotBlank (normalize s)
unfolding normalize
normalize_lem s =
    let (b, e, h) = pop_blanks_split (reverse (drop_cr s)) in
    (
      reverse b,
      subst (LessCr s)
          (sym (reverse-reverse (drop_cr s))
            ∙ ap reverse e
            ∙ reverse-append b (pop_blanks (reverse (drop_cr s))))
          (drop_cr-LessCr s),
      All-reverse Blank b h,
      normalize-NotCr s,
      LastNotBlank-pop (reverse (drop_cr s)),
    )

drop_cr-Padding : (w : Bytes) → All Padding w → All Blank (drop_cr w)
unfolding drop_cr
drop_cr-Padding [] h = tt
drop_cr-Padding (c ∷ w) (p, ps) = elim (Bool-cases (c == 0x0D)) [
  | inl t ↦ rw (t, drop_cr) (drop_cr-Padding w ps)
  | inr f ↦ rw (f, drop_cr) (ground arith, drop_cr-Padding w ps)
]

-- Spaces, line feeds and carriage returns at the end of an output do not change its normal form, so
-- they cannot turn a right answer into a wrong one.
normalize-append-Padding : (s w : Bytes) → All Padding w → normalize (s ++ w) ≡ normalize s
unfolding normalize
normalize-append-Padding s w h =
    rw
      (
        drop_cr-append s w,
        reverse-append (drop_cr s) (drop_cr w),
        pop_blanks_append (reverse (drop_cr w)) (reverse (drop_cr s))
            (All-reverse Blank _ (drop_cr-Padding w h)),
      )
      refl
