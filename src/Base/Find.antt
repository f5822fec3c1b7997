-- ===== src/Base/Find.antt =====
-- Searches in texts that are put together from parts.
use Prim.Native.Nat.{ℕ, ◌+◌, ◌-◌}
use mathlib.Core.Bool.{Bool, true, false, not, ◌&&◌}
use mathlib.Core.List.{[], ◌∷◌, ◌++◌}
use mathlib.Core.Logic.{◌≢◌}
use mathlib.Core.Option.{none, some}
use mathlib.Core.Path.{◌≡◌, refl}
use native.Mathlib.Omega.{arith}
use lemuel_quant_core.Base.Bytes.{Bytes, find, find_from, starts_with, substr}
use lemuel_quant_core.Base.Lists.{
  length, drop, length-append, drop_append_length, take_append_length,
}
use lemuel_quant_core.Base.Split.{Free}
use lemuel_quant_core.Base.Tests.{leb, ◌==◌}

-- The first delimiter behind a text without it.
pub find-Free :
    (d : ℕ) (s rest : Bytes) → Free d s → find (d ∷ []) (s ++ d ∷ rest) ≡ some (length s)
find-Free d [] rest f = ground arith
find-Free d (c ∷ s) rest (n, f) = ground (arith, find-Free d s rest f)

-- The same search from a position on.
find_from-Free :
    (d : ℕ) (pre s rest : Bytes)
    → Free d s
    → find_from (d ∷ []) (pre ++ (s ++ d ∷ rest)) (length pre) ≡ some (length pre + length s)
find_from-Free d pre s rest f =
    let inside : leb (length pre) (length (pre ++ (s ++ d ∷ rest))) ≡ true =
      ground (arith, length-append pre (s ++ d ∷ rest)) in
    rw (inside, drop_append_length pre (s ++ d ∷ rest), find-Free d s rest f, find_from) refl

-- A pattern does not start inside a text without its first byte.
pub find-skip :
    (p : ℕ) (ps s rest : Bytes) (i : ℕ)
    → Free p s
    → find (p ∷ ps) rest ≡ some i
    → find (p ∷ ps) (s ++ rest) ≡ some (length s + i)
find-skip p ps [] rest i f e = ground arith
find-skip p ps (c ∷ s) rest i (n, f) e = ground (arith, find-skip p ps s rest i f e)

-- A pattern whose first part lacks the byte `b` and whose next byte is `a` does not start a text that
-- has no `a` before its first `b`.
pub starts_with_apart :
    (a b : ℕ) (ps qs s rest : Bytes)
    → a ≢ b
    → Free b ps
    → Free a s
    → starts_with (ps ++ a ∷ qs) (s ++ b ∷ rest) ≡ false
starts_with_apart a b [] qs [] rest h f g = ground arith
starts_with_apart a b [] qs (c ∷ s) rest h f (n, g) = ground arith
starts_with_apart a b (p ∷ ps) qs [] rest h (n, f) g = ground arith
starts_with_apart a b (p ∷ ps) qs (c ∷ s) rest h (n, f) (m, g) =
    ground (arith, starts_with_apart a b ps qs s rest h f g)

-- What stands between a position and the next delimiter, or the end.
abbrev pub cut : ℕ → Bytes → ℕ → Bytes
cut d json n = elim (find_from (d ∷ []) json n) [
  | none ↦ drop n json
  | some e ↦ substr json n (e - n)
]

pub cut-Free :
    (d : ℕ) (pre s rest : Bytes) → Free d s → cut d (pre ++ (s ++ d ∷ rest)) (length pre) ≡ s
cut-Free d pre s rest f =
    let width : length pre + length s - length pre ≡ length s = omega arith in
    rw (find_from-Free d pre s rest f, cut)
      (rw (width, drop_append_length pre (s ++ d ∷ rest)) (take_append_length s (d ∷ rest)))

-- Texts without a byte, by computation.
abbrev pub is_free : ℕ → Bytes → Bool
is_free d [] = true
is_free d (c ∷ s) = not (c == d) && is_free d s

pub is_free→Free : (d : ℕ) (s : Bytes) → is_free d s ≡ true → Free d s
is_free→Free d [] h = tt
is_free→Free d (c ∷ s) h = (ground arith, is_free→Free d s (ground arith))
