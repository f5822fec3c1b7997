-- ===== src/Base/Bytes.antt =====
-- Text as the bytes of its UTF-8 encoding, and what the program uses of `std::string`.
use Prim.Native.Char.{code}
use Prim.Native.String.{String}
use Prim.Native.Nat.{ℕ, zero, suc, ◌+◌, ◌/◌, ◌%◌, ◌≤◌}
use mathlib.Core.Bool.{Bool, true, false, ◌&&◌}
use mathlib.Core.List.{List, [], ◌∷◌, ◌++◌}
use mathlib.Core.Logic.{◌↔◌, inl, inr}
use mathlib.Core.Option
use mathlib.Core.Option.{Option, none, some}
use mathlib.Core.Path.{◌≡◌, refl}
use native.Mathlib.Omega.{arith}
use lemuel_quant_core.Base.Lists.{length, take, drop, All}
use lemuel_quant_core.Base.Tests.{ltb, leb, ◌==◌, if◌then◌else◌, Bool-cases}

abbrev pub Bytes : Type 0
Bytes = List ℕ

-- The UTF-8 encoding of one code point below 0x10000.
abbrev utf8 : ℕ → Bytes
utf8 c =
    if ltb c 0x80
    then c ∷ []
    else if ltb c 0x800
    then (0xC0 + c / 64) ∷ (0x80 + c % 64) ∷ []
    else (0xE0 + c / 4096) ∷ (0x80 + c / 64 % 64) ∷ (0x80 + c % 64) ∷ []

-- A string literal of the source.
abbrev pub lit : String → Bytes
lit String.[] = []
lit (String.◌∷◌ c s) = utf8 (code c) ++ lit s

-- `operator==` of strings.
abbrev pub bytes_eq : Bytes → Bytes → Bool
bytes_eq [] [] = true
bytes_eq [] (y ∷ ys) = false
bytes_eq (x ∷ xs) [] = false
bytes_eq (x ∷ xs) (y ∷ ys) = (x == y) && bytes_eq xs ys

pub bytes_eq_refl : (xs : Bytes) → bytes_eq xs xs ≡ true
bytes_eq_refl [] = refl
bytes_eq_refl (x ∷ xs) = ground (arith, bytes_eq_refl xs)

bytes_eq→eq : (xs ys : Bytes) → bytes_eq xs ys ≡ true → xs ≡ ys
bytes_eq→eq [] [] h = refl
bytes_eq→eq [] (y ∷ ys) h = cc
bytes_eq→eq (x ∷ xs) [] h = cc
bytes_eq→eq (x ∷ xs) (y ∷ ys) h = ground (arith, bytes_eq→eq xs ys)

-- The test decides equality.
pub bytes_eq_iff : (xs ys : Bytes) → (bytes_eq xs ys ≡ true) ↔ (xs ≡ ys)
bytes_eq_iff xs ys = (bytes_eq→eq xs ys, λ e. ground (arith, bytes_eq_refl xs))

abbrev pub is_empty : Bytes → Bool
is_empty [] = true
is_empty (x ∷ xs) = false

-- Does the text begin with the pattern?
abbrev pub starts_with : Bytes → Bytes → Bool
starts_with [] s = true
starts_with (p ∷ ps) [] = false
starts_with (p ∷ ps) (c ∷ s) = (p == c) && starts_with ps s

-- `s.find(pat)`, `none` for `npos`.
abbrev pub find : Bytes → Bytes → Option ℕ
find pat [] = if starts_with pat [] then some 0 else none
find pat (c ∷ s) = if starts_with pat (c ∷ s) then some 0 else Option.map suc (find pat s)

-- `s.find(pat, pos)`.
abbrev pub find_from : Bytes → Bytes → ℕ → Option ℕ
find_from pat s pos =
    if leb pos (length s) then Option.map (λ i. pos + i) (find pat (drop pos s)) else none

-- `s.substr(pos, n)` for a `pos` within the string.
abbrev pub substr : Bytes → ℕ → ℕ → Bytes
substr s pos n = take n (drop pos s)

-- `s.find(pat) != npos`.
abbrev pub contains : Bytes → Bytes → Bool
contains pat s = elim (find pat s) [ none ↦ false | some _ ↦ true ]

-- `std::to_string` and `operator<<` of a number that is not negative: one digit for each round.
abbrev pub decimal_from : ℕ → ℕ → Bytes → Bytes
decimal_from zero n acc = acc
decimal_from (suc fuel) n acc =
    let digit = (48 + n % 10) ∷ acc in
    let rest = decimal_from fuel (n / 10) digit in if n / 10 == 0 then digit else rest

unfoldable pub decimal : ℕ → Bytes
decimal n = decimal_from (suc n) n []

abbrev pub Digit : ℕ → Type 0
Digit c = (48 ≤ c) × (c ≤ 57)

decimal_from-Digit :
    (fuel n : ℕ) (acc : Bytes) → All Digit acc → All Digit (decimal_from fuel n acc)
decimal_from-Digit zero n acc h = h
decimal_from-Digit (suc fuel) n acc h = elim (Bool-cases (n / 10 == 0)) [
  | inl t ↦ rw (t, decimal_from) ((omega arith, omega arith), h)
  | inr e ↦
      rw (e, decimal_from)
        (decimal_from-Digit fuel (n / 10) ((48 + n % 10) ∷ acc) ((omega arith, omega arith), h))
]

-- The decimal form of a number consists of digits.
pub decimal-Digit : (n : ℕ) → All Digit (decimal n)
unfolding decimal
decimal-Digit n = decimal_from-Digit (suc n) n [] tt
