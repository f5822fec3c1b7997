-- ===== src/Base/Split.antt =====
-- The loop that cuts a text at a delimiter, which stock-feed writes out three times
-- (modules/stock-feed/src/kis_client.cpp), against a recursive specification.
use Prim.Native.Nat.{ℕ, zero, suc, ◌+◌, ◌-◌}
use mathlib.Core.Bool.{Bool, true, false, ◌||◌}
use mathlib.Core.List.{List, [], ◌∷◌, ◌++◌, append_assoc, append-nil}
use mathlib.Core.Logic.{◌≢◌, inl, inr}
use mathlib.Core.Path.{◌≡◌, refl, ap, ap₂, sym, ◌∙◌}
use native.Mathlib.Numerals.{add-one}
use native.Mathlib.Nat.{add-zero}
use native.Mathlib.Omega.{arith}
use lemuel_quant_core.Base.Bytes.{Bytes, substr}
use lemuel_quant_core.Base.Lists.{
  length, get_or, All, take_append_length, drop_append_length, length-append, All-append,
}
use lemuel_quant_core.Base.Tests.{◌==◌, if◌then◌else◌, Bool-cases, ==_iff}

-- The `push_back` of the loop body, which is made at a delimiter and at the end.
abbrev emit : Bool → Bytes → List Bytes → List Bytes
emit b piece rest = if b then piece ∷ rest else rest

-- for (i = 0; i <= s.size(); ++i) if (i == s.size() || s[i] == d) { push s.substr(p, i - p);
-- p = i + 1; }: the first argument counts the rounds left.
is_cut : ℕ → Bytes → ℕ → Bool
is_cut d s i = i == length s || get_or s i 0 == d

unfoldable split_loop : ℕ → ℕ → Bytes → ℕ → ℕ → List Bytes
unfolding is_cut
split_loop zero d s i p = []
split_loop (suc n) d s i p =
    let cut = is_cut d s i in
    emit cut (substr s p (i - p)) (split_loop n d s (i + 1) (if cut then i + 1 else p))

unfoldable pub split : ℕ → Bytes → List Bytes
unfolding split_loop
split d s = split_loop (length s + 1) d s 0 0

-- The pieces of a text, and the piece that is under way.
abbrev pieces_from : ℕ → Bytes → Bytes → List Bytes
pieces_from d cur [] = cur ∷ []
pieces_from d cur (c ∷ s) = elim (c == d) [
  | true ↦ cur ∷ pieces_from d [] s
  | false ↦ pieces_from d (cur ++ c ∷ []) s
]

abbrev pub pieces : ℕ → Bytes → List Bytes
pieces d s = pieces_from d [] s

abbrev pub join : ℕ → List Bytes → Bytes
join d [] = []
join d (x ∷ []) = x
join d (x ∷ y ∷ ys) = x ++ (d ∷ join d (y ∷ ys))

abbrev pub Free : ℕ → Bytes → Type 0
Free d = All (λ c. c ≢ d)

same : (d : ℕ) → (d == d) ≡ true
same d = ground arith

other : (c d : ℕ) → c ≢ d → (c == d) ≡ false
other c d h = ground arith

get_or_append_length : (pre : Bytes) (c : ℕ) (s : Bytes) → get_or (pre ++ c ∷ s) (length pre) 0 ≡ c
get_or_append_length [] c s = refl
get_or_append_length (x ∷ pre) c s = get_or_append_length pre c s

-- What lies between `p` and `i`.
substr_middle :
    (pre cur rest : Bytes) → substr (pre ++ (cur ++ rest)) (length pre) (length cur) ≡ cur
substr_middle pre cur rest = rw (drop_append_length pre (cur ++ rest)) (take_append_length cur rest)

split_loop_emit :
    (n d : ℕ) (s : Bytes) (i p : ℕ)
    → is_cut d s i ≡ true
    → split_loop (suc n) d s i p ≡ substr s p (i - p) ∷ split_loop n d s (i + 1) (i + 1)
unfolding split_loop
split_loop_emit n d s i p h = rw h

split_loop_skip :
    (n d : ℕ) (s : Bytes) (i p : ℕ)
    → is_cut d s i ≡ false
    → split_loop (suc n) d s i p ≡ split_loop n d s (i + 1) p
unfolding split_loop
split_loop_skip n d s i p h = rw h

is_cut_end : (d : ℕ) (s : Bytes) (i : ℕ) → i ≡ length s → is_cut d s i ≡ true
unfolding is_cut
is_cut_end d s i h = ground arith

is_cut_inside :
    (d : ℕ) (s pre : Bytes) (c : ℕ) (rest : Bytes) (i : ℕ)
    → s ≡ pre ++ c ∷ rest
    → i ≡ length pre
    → is_cut d s i ≡ (c == d)
unfolding is_cut
is_cut_inside d s pre c rest i es ei =
    ground (arith, length-append pre (c ∷ rest), get_or_append_length pre c rest)

piece_lem :
    (s pre cur rest : Bytes) (i p : ℕ)
    → s ≡ pre ++ (cur ++ rest)
    → p ≡ length pre
    → i ≡ length pre + length cur
    → substr s p (i - p) ≡ cur
piece_lem s pre cur rest i p es ep ei =
    let e : i - p ≡ length cur = omega arith in rw (e, es, ep) (substr_middle pre cur rest)

split_loop_lem :
    (d : ℕ) (s pre cur rest : Bytes) (i p : ℕ)
    → s ≡ pre ++ (cur ++ rest)
    → p ≡ length pre
    → i ≡ length pre + length cur
    → split_loop (suc (length rest)) d s i p ≡ pieces_from d cur rest
unfolding split_loop
split_loop_lem d s pre cur [] i p es ep ei =
    let l : i ≡ length s =
      rw es (omega (arith, length-append pre (cur ++ []), length-append cur [])) in
    rw (
      split_loop_emit 0 d s i p (is_cut_end d s i l),
      piece_lem s pre cur [] i p es ep ei,
      split_loop,
    )
split_loop_lem d s pre cur (c ∷ rest) i p es ep ei = elim (Bool-cases (c == d)) [
  | inl t ↦
      rw (t, pieces_from)
        (split_loop_emit (suc (length rest)) d s i p (k ∙ t)
          ∙ ap₂ ◌∷◌ (piece_lem s pre cur (c ∷ rest) i p es ep ei) (
              split_loop_lem d s ((pre ++ cur) ++ c ∷ []) [] rest (i + 1) (i + 1)
                (es' ∙ sym (append_assoc (pre ++ cur) (c ∷ []) rest)) next
                (next ∙ sym (add-zero _))))
  | inr f ↦
      rw (f, pieces_from)
        (split_loop_skip (suc (length rest)) d s i p (k ∙ f)
          ∙ split_loop_lem d s pre (cur ++ c ∷ []) rest (i + 1) p
              (es ∙ ap (λ t. pre ++ t) (sym (append_assoc cur (c ∷ []) rest))) ep
              (omega (arith, length-append cur (c ∷ []))))
]
  where
    es' : s ≡ (pre ++ cur) ++ c ∷ rest
    es' = es ∙ sym (append_assoc pre cur (c ∷ rest))

    k : is_cut d s i ≡ (c == d)
    k = is_cut_inside d s (pre ++ cur) c rest i es' (ei ∙ sym (length-append pre cur))

    next : i + 1 ≡ length ((pre ++ cur) ++ c ∷ [])
    next = omega (arith, length-append (pre ++ cur) (c ∷ []), length-append pre cur)

split-pieces : (d : ℕ) (s : Bytes) → split d s ≡ pieces d s
unfolding split
split-pieces d s = rw add-one (split_loop_lem d s [] [] s 0 0 refl refl refl)

join-cons :
    (d : ℕ) (x cur s : Bytes)
    → join d (x ∷ pieces_from d cur s) ≡ x ++ (d ∷ join d (pieces_from d cur s))
join-cons d x cur [] = refl
join-cons d x cur (c ∷ s) = elim (Bool-cases (c == d)) [
  | inl t ↦ rw (t, pieces_from)
  | inr f ↦ rw (f, pieces_from) (join-cons d x (cur ++ c ∷ []) s)
]

pieces_from-join : (d : ℕ) (cur s : Bytes) → join d (pieces_from d cur s) ≡ cur ++ s
pieces_from-join d cur [] = sym (append-nil cur)
pieces_from-join d cur (c ∷ s) = elim (Bool-cases (c == d)) [
  | inl t ↦
      rw (t, pieces_from)
        (join-cons d cur [] s
          ∙ ap (λ r. cur ++ r) (ap₂ ◌∷◌ (sym ((==_iff c d).0 t)) (pieces_from-join d [] s)))
  | inr f ↦ rw (f, pieces_from) (pieces_from-join d (cur ++ c ∷ []) s ∙ append_assoc cur (c ∷ []) s)
]

pieces_from-Free : (d : ℕ) (cur s : Bytes) → Free d cur → All (Free d) (pieces_from d cur s)
pieces_from-Free d cur [] h = (h, tt)
pieces_from-Free d cur (c ∷ s) h = elim (Bool-cases (c == d)) [
  | inl t ↦ rw (t, pieces_from) (h, pieces_from-Free d [] s tt)
  | inr f ↦
      rw (f, pieces_from)
        (pieces_from-Free d (cur ++ c ∷ []) s
          (All-append (λ x. x ≢ d) cur (c ∷ []) h (ground arith, tt)))
]

-- The loop loses no byte: its pieces, joined by the delimiter, are the text.
join-split : (d : ℕ) (s : Bytes) → join d (split d s) ≡ s
join-split d s = rw (split-pieces d s) (pieces_from-join d [] s)

-- No piece holds the delimiter.
split-Free : (d : ℕ) (s : Bytes) → All (Free d) (split d s)
split-Free d s = rw (split-pieces d s) (pieces_from-Free d [] s tt)

pieces_from_whole :
    (d : ℕ) (cur x s : Bytes)
    → Free d x
    → pieces_from d cur (x ++ (d ∷ s)) ≡ (cur ++ x) ∷ pieces_from d [] s
pieces_from_whole d cur [] s h = rw (same d, append-nil cur, pieces_from) refl
pieces_from_whole d cur (c ∷ x) s (p, ps) =
    rw (other c d p, pieces_from)
      (pieces_from_whole d (cur ++ c ∷ []) x s ps
        ∙ ap (λ t. t ∷ pieces_from d [] s) (append_assoc cur (c ∷ []) x))

pieces_from_last : (d : ℕ) (cur x : Bytes) → Free d x → pieces_from d cur x ≡ (cur ++ x) ∷ []
pieces_from_last d cur [] h = rw (append-nil cur) refl
pieces_from_last d cur (c ∷ x) (p, ps) =
    rw (other c d p, pieces_from)
      (pieces_from_last d (cur ++ c ∷ []) x ps ∙ ap (λ t. t ∷ []) (append_assoc cur (c ∷ []) x))

pieces-join :
    (d : ℕ) (x : Bytes) (xs : List Bytes)
    → All (Free d) (x ∷ xs)
    → pieces d (join d (x ∷ xs)) ≡ x ∷ xs
pieces-join d x [] (h, hs) = pieces_from_last d [] x h
pieces-join d x (y ∷ ys) (h, hs) =
    pieces_from_whole d [] x (join d (y ∷ ys)) h ∙ ap (◌∷◌ x) (pieces-join d y ys hs)

-- Texts that hold no delimiter are read back from their joining.
pub split-join :
    (d : ℕ) (x : Bytes) (xs : List Bytes)
    → All (Free d) (x ∷ xs)
    → split d (join d (x ∷ xs)) ≡ x ∷ xs
split-join d x xs h = split-pieces d (join d (x ∷ xs)) ∙ pieces-join d x xs h
