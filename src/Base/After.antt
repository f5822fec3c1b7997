-- ===== src/Base/After.antt =====
-- What stands behind the first occurrence of a key in a text that is put together from parts.
use Prim.Native.Nat.{ℕ, suc, ◌+◌}
use mathlib.Core.Bool.{Bool, true, false, not, ◌&&◌}
use mathlib.Core.List.{[], ◌∷◌, ◌++◌}
use mathlib.Core.Logic.{◌≢◌}
use mathlib.Core.Option.{some}
use mathlib.Core.Path.{◌≡◌, refl, ◌∙◌, ap}
use native.Mathlib.Omega.{arith}
use lemuel_quant_core.Base.Bytes.{Bytes, find, starts_with}
use lemuel_quant_core.Base.Find.{find-skip}
use lemuel_quant_core.Base.Lists.{length, drop}
use lemuel_quant_core.Base.Split.{Free}

pub record After (k text v : Bytes) : Type 0 where
  pub at : ℕ
  pub found : find k text ≡ some at
  pub rest : drop (at + length k) text ≡ v

drop-append_plus : (s text : Bytes) (n : ℕ) → drop (length s + n) (s ++ text) ≡ drop n text
drop-append_plus [] text n = ap (λ m. drop m text) (omega arith)
drop-append_plus (c ∷ s) text n =
    let e : length (c ∷ s) + n ≡ suc (length s + n) = omega arith in
    ap (λ m. drop m (c ∷ (s ++ text))) e ∙ drop-append_plus s text n

-- Past a text without the first byte of the key.
pub After-append :
    (p : ℕ) (ps s text v : Bytes) → Free p s → After (p ∷ ps) text v → After (p ∷ ps) (s ++ text) v
After-append p ps s text v f a = record {
  at = length s + a.at;
  found = find-skip p ps s text a.at f a.found;
  rest =
      ap (λ m. drop m (s ++ text)) (omega arith)
      ∙ drop-append_plus s text (a.at + length (p ∷ ps))
      ∙ a.rest;
}

-- Past one byte at which the key does not start.
pub After-cons :
    (k text v : Bytes) (c : ℕ)
    → starts_with k (c ∷ text) ≡ false
    → After k text v
    → After k (c ∷ text) v
After-cons k text v c f a = record {
  at = suc a.at;
  found = rw (f, a.found, find) refl;
  rest =
      let e : suc a.at + length k ≡ suc (a.at + length k) = omega arith in
      ap (λ m. drop m (c ∷ text)) e ∙ a.rest;
}

-- Does the key start nowhere in the first part?
abbrev pub is_clear : Bytes → Bytes → Bytes → Bool
is_clear k [] text = true
is_clear k (c ∷ s) text = not (starts_with k (c ∷ (s ++ text))) && is_clear k s text

pub After-append_clear :
    (k s text v : Bytes) → is_clear k s text ≡ true → After k text v → After k (s ++ text) v
After-append_clear k [] text v h a = a
After-append_clear k (c ∷ s) text v h a =
    After-cons k (s ++ text) v c (ground arith) (After-append_clear k s text v (ground arith) a)

-- A quoted text does not start a key, if it goes on otherwise behind the closing quote.
pub starts_with_quoted :
    (q x y : ℕ) (ps qs s text : Bytes)
    → x ≢ y
    → Free q ps
    → Free q s
    → starts_with (ps ++ q ∷ x ∷ qs) (s ++ q ∷ y ∷ text) ≡ false
starts_with_quoted q x y [] qs [] text h f g = ground arith
starts_with_quoted q x y [] qs (c ∷ s) text h f (n, g) = ground arith
starts_with_quoted q x y (p ∷ ps) qs [] text h (n, f) g = ground arith
starts_with_quoted q x y (p ∷ ps) qs (c ∷ s) text h (n, f) (m, g) =
    ground (arith, starts_with_quoted q x y ps qs s text h f g)
