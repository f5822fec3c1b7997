-- ===== src/Tests.antt =====
-- Concrete inputs for the modelled parts: a `double` that reads and prints whole numbers, and the
-- children, which hold the examples.
mod Judging
mod Feeding
mod Tagging
mod Threads
mod Subscribing
mod Trading
mod Exchange
mod Broker
mod Crawling
mod Storing
mod Writing
mod News
use lemuel_quant_core.Base.{
  ℕ, zero, suc, ◌+◌, ◌*◌, ◌-◌, ◌/◌, ◌%◌, ◌<◌, refl, ◌∙◌, Bool-cases, inl, inr, Bool, true, false,
  Option, none, some, List, [], ◌∷◌, ltb, leb, ◌&&◌, not, ◌==◌, ◌≡◌, All, arith, if◌then◌else◌,
}
use lemuel_quant_core.Base.Bytes.{Bytes, decimal, decimal_from}
use lemuel_quant_core.Base.Split.{Free}
use lemuel_quant_core.Base.Find.{is_free, is_free→Free}
use lemuel_quant_core.Feed.{Double}
use lemuel_quant_core.News.Rss.Plain.{Plain}

-- Digits to the end of the text, behind those that were read.
read_digits : ℕ → Bytes → Option ℕ
read_digits n [] = some n
read_digits n (c ∷ s) =
    let rest = read_digits (10 * n + (c - 48)) s in if leb 48 c && leb c 57 then rest else none

whole : Bytes → Option ℕ
unfolding read_digits
whole [] = none
whole (c ∷ s) = read_digits 0 (c ∷ s)

instance abbrev pub whole_double : Double ℕ
unfolding whole decimal
whole_double = record {
  nought = 0;
  is_positive = λ n. ltb 0 n;
  stod = λ s. whole s;
  print = λ n. decimal n;
}

-- Lists of texts without a byte, by computation.
abbrev are_free : ℕ → List Bytes → Bool
are_free d [] = true
are_free d (s ∷ texts) = is_free d s && are_free d texts

pub are_free→All : (d : ℕ) (texts : List Bytes) → are_free d texts ≡ true → All (Free d) texts
are_free→All d [] h = tt
are_free→All d (s ∷ texts) h =
    (is_free→Free d s (ground arith), are_free→All d texts (ground arith))

is_free→Plain : (s : Bytes) → is_free 0x3C s ≡ true → is_free 0x3E s ≡ true → Plain s
is_free→Plain [] h k = tt
is_free→Plain (c ∷ s) h k =
    ((ground arith, ground arith), is_free→Plain s (ground arith) (ground arith))

read_digits-decimal_from :
    (fuel n : ℕ) (acc : Bytes)
    → n < fuel
    → read_digits 0 (decimal_from fuel n acc) ≡ read_digits n acc
unfolding read_digits
read_digits-decimal_from zero n acc h = absurd (omega arith)
read_digits-decimal_from (suc fuel) n acc h = elim (Bool-cases (n / 10 == 0)) [
  | inl t ↦ rw (t, decimal_from) (digit_last 0 n acc (ground arith))
  | inr f ↦
      rw (f, decimal_from)
        (read_digits-decimal_from fuel (n / 10) ((48 + n % 10) ∷ acc) (ground arith)
          ∙ digit_last (n / 10) n acc (omega arith))
]
  where
    digit_last :
        (m n : ℕ) (acc : Bytes)
        → n ≡ 10 * m + n % 10
        → read_digits m ((48 + n % 10) ∷ acc) ≡ read_digits n acc
    digit_last m n acc h =
        let low : leb 48 (48 + n % 10) ≡ true = ground arith in
        let high : leb (48 + n % 10) 57 ≡ true = ground arith in
        let same : 10 * m + (48 + n % 10 - 48) ≡ n = omega arith in rw (low, high, same) refl

whole-decimal_from :
    (fuel n : ℕ) (acc : Bytes)
    → whole (decimal_from (suc fuel) n acc) ≡ read_digits 0 (decimal_from (suc fuel) n acc)
unfolding whole
whole-decimal_from zero n acc = ground arith
whole-decimal_from (suc fuel) n acc = elim (Bool-cases (n / 10 == 0)) [
  | inl t ↦ rw (t, decimal_from) refl
  | inr f ↦ rw (f, decimal_from) (whole-decimal_from fuel (n / 10) ((48 + n % 10) ∷ acc))
]

-- Whole numbers are read back as they were printed.
pub stod-print : (n : ℕ) → whole_double.stod (whole_double.print n) ≡ some n
unfolding whole_double
stod-print n = whole-decimal_from n n [] ∙ read_digits-decimal_from (suc n) n [] (omega arith)
