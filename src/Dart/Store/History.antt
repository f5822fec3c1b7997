-- ===== src/Dart/Store/History.antt =====
-- The in-memory store against the list of the disclosures that it took
-- (modules/dart-crawler/src/disclosure_store.cpp).
use mathlib.Core.List.{map-append, reverse-append}
use lemuel_quant_core.Base.{
  ℕ, zero, suc, ◌≡◌, refl, ◌∙◌, sym, ap, Bool, true, false, Option, none, some, List, [], ◌∷◌, ◌++◌,
  map, reverse, arith, if◌then◌else◌, length, take, min, All, All-append, inl, inr, Option-cases,
  length-map, length-append,
}
use lemuel_quant_core.Base.Bytes.{Bytes, bytes_eq, bytes_eq_refl, bytes_eq_iff}
use lemuel_quant_core.Base.Int.{ℤ}
use lemuel_quant_core.Dart.{Disclosure}
use lemuel_quant_core.Dart.Store.{
  Store, empty, insert, find, lookup, index, recent_loop, recent, clamp,
}

-- The first disclosure with a receipt number.
abbrev pub first_with : Bytes → List Disclosure → Option Disclosure
first_with k [] = none
first_with k (d ∷ h) = if bytes_eq d.rcept_no k then some d else first_with k h

-- A history takes a disclosure if its receipt number is new.
abbrev pub note : List Disclosure → Disclosure → List Disclosure
note h d = elim (first_with d.rcept_no h) [ none ↦ h ++ d ∷ [] | some _ ↦ h ]

abbrev pub is_new : List Disclosure → Disclosure → Bool
is_new h d = elim (first_with d.rcept_no h) [ none ↦ true | some _ ↦ false ]

abbrev pub numbers : List Disclosure → List Bytes
numbers = map (λ d. d.rcept_no)

-- Each disclosure of the history is the first with its number.
abbrev Firsts : List Disclosure → Type 0
Firsts h = All (λ d. first_with d.rcept_no h ≡ some d) h

pub record Tracks (s : Store) (h : List Disclosure) : Type 0 where
  pub order_eq : s.order ≡ numbers h
  pub lookup_eq : (k : Bytes) → lookup k s.by_id ≡ first_with k h
  pub firsts : Firsts h

pub empty-Tracks : Tracks empty []
empty-Tracks = record { order_eq = refl; lookup_eq = λ k. refl; firsts = tt }

pub first_with-snoc_some :
    (k : Bytes) (h : List Disclosure) (d e : Disclosure)
    → first_with k h ≡ some e
    → first_with k (h ++ d ∷ []) ≡ some e
first_with-snoc_some k [] d e p = cc
first_with-snoc_some k (c ∷ h) d e p = ground (arith, first_with-snoc_some k h d e)

pub first_with-snoc_none :
    (k : Bytes) (h : List Disclosure) (d : Disclosure)
    → first_with k h ≡ none
    → first_with k (h ++ d ∷ []) ≡ (if bytes_eq d.rcept_no k then some d else none)
first_with-snoc_none k [] d p = refl
first_with-snoc_none k (c ∷ h) d p = ground (arith, first_with-snoc_none k h d)

Firsts-grow :
    (h g : List Disclosure) (d : Disclosure)
    → All (λ e. first_with e.rcept_no h ≡ some e) g
    → All (λ e. first_with e.rcept_no (h ++ d ∷ []) ≡ some e) g
Firsts-grow h [] d p = tt
Firsts-grow h (e ∷ g) d (p, ps) = (first_with-snoc_some e.rcept_no h d e p, Firsts-grow h g d ps)

Firsts-snoc :
    (h : List Disclosure) (d : Disclosure)
    → Firsts h
    → first_with d.rcept_no h ≡ none
    → Firsts (h ++ d ∷ [])
Firsts-snoc h d f n =
    All-append (λ e. first_with e.rcept_no (h ++ d ∷ []) ≡ some e) h (d ∷ []) (Firsts-grow h h d f)
      (rw (first_with-snoc_none d.rcept_no h d n, bytes_eq_refl d.rcept_no) refl, tt)

lookup-snoc :
    (m : List (Bytes × Disclosure)) (h : List Disclosure) (d : Disclosure)
    → ((k : Bytes) → lookup k m ≡ first_with k h)
    → first_with d.rcept_no h ≡ none
    → (k : Bytes) → lookup k ((d.rcept_no, d) ∷ m) ≡ first_with k (h ++ d ∷ [])
lookup-snoc m h d e n k = elim (Option-cases (first_with k h)) [
  | inl p ↦ rw (first_with-snoc_none k h d p, e k, p) refl
  | inr (c, p) ↦
      let distinct : bytes_eq d.rcept_no k ≡ false = ground (arith, bytes_eq_iff d.rcept_no k) in
      rw (first_with-snoc_some k h d c p, distinct, e k, p) refl
]

module _ {s : Store} {h : List Disclosure} (t : Tracks s h) (d : Disclosure) where
  insert_new :
      first_with d.rcept_no h ≡ none → Tracks (insert s d).0 (h ++ d ∷ []) × ((insert s d).1 ≡ true)
  unfolding insert
  insert_new n =
      rw (t.lookup_eq d.rcept_no, n, insert)
        (
          record {
            order_eq = ap (λ o. o ++ d.rcept_no ∷ []) t.order_eq ∙ sym (map-append _ h (d ∷ []));
            lookup_eq = lookup-snoc s.by_id h d t.lookup_eq n;
            firsts = Firsts-snoc h d t.firsts n;
          },
          refl,
        )

  insert_old :
      {e : Disclosure}
      → first_with d.rcept_no h ≡ some e
      → ((insert s d).0 ≡ s) × ((insert s d).1 ≡ false)
  unfolding insert
  insert_old p = rw (t.lookup_eq d.rcept_no, p, insert) (refl, refl)

  -- An insertion succeeds exactly if the receipt number is new, and the store then tracks the history
  -- with the disclosure behind it; otherwise it tracks the same history.
  pub insert-Tracks : Tracks (insert s d).0 (note h d) × ((insert s d).1 ≡ is_new h d)
  insert-Tracks = elim (Option-cases (first_with d.rcept_no h)) [
    | inl n ↦ rw (n, note, is_new) (insert_new n)
    | inr (e, p) ↦ let (same, no_) = insert_old p in rw (p, note, is_new) (rw same t, no_)
  ]

recent_loop-take :
    (m : List (Bytes × Disclosure)) (n : ℕ) (g : List Disclosure)
    → All (λ d. lookup d.rcept_no m ≡ some d) g
    → recent_loop n m (numbers g) ≡ take n g
unfolding recent_loop
recent_loop-take m zero g p = refl
recent_loop-take m (suc n) [] p = refl
recent_loop-take m (suc n) (d ∷ g) (p, ps) = rw (p, recent_loop-take m n g ps, index) refl

take-min : (n : ℕ) (g : List Disclosure) → take (min (length g) n) g ≡ take n g
take-min zero g = let e : min (length g) 0 ≡ 0 = omega arith in rw e refl
take-min (suc n) [] = let e : min 0 (suc n) ≡ 0 = omega arith in rw e refl
take-min (suc n) (d ∷ g) =
    let e : min (suc (length g)) (suc n) ≡ suc (min (length g) n) = omega arith in
    rw e (ap (◌∷◌ d) (take-min n g))

numbers-reverse : (g : List Disclosure) → reverse (numbers g) ≡ numbers (reverse g)
numbers-reverse [] = refl
numbers-reverse (d ∷ g) =
    reverse-append (d.rcept_no ∷ []) (numbers g)
    ∙ ap (λ o. o ++ d.rcept_no ∷ []) (numbers-reverse g)
    ∙ sym (map-append _ (reverse g) (d ∷ []))
    ∙ ap numbers (sym (reverse-append (d ∷ []) g))

length-reverse : (g : List Disclosure) → length (reverse g) ≡ length g
length-reverse [] = refl
length-reverse (d ∷ g) =
    ap length (reverse-append (d ∷ []) g)
    ∙ length-append (reverse g) (d ∷ [])
    ∙ omega (arith, length-reverse g)

All-reverse : (P : Disclosure → Type 0) (g : List Disclosure) → All P g → All P (reverse g)
All-reverse P [] p = p
All-reverse P (d ∷ g) (p, ps) =
    rw (reverse-append (d ∷ []) g) (All-append P (reverse g) (d ∷ []) (All-reverse P g ps) (p, tt))

looked :
    (s : Store) (h : List Disclosure)
    → Tracks s h
    → (g : List Disclosure) → All (λ d. first_with d.rcept_no h ≡ some d) g
    → All (λ d. lookup d.rcept_no s.by_id ≡ some d) g
looked s h t [] p = tt
looked s h t (d ∷ g) (p, ps) = (t.lookup_eq d.rcept_no ∙ p, looked s h t g ps)

-- A store that tracks a history finds the first disclosure with a number, and lists the latest ones
-- first, as many as asked for and there are; none for a limit below zero.
recent_lem :
    {s : Store} {h : List Disclosure}
    → Tracks s h
    → (k : Bytes) (limit : ℤ)
    → (find s k ≡ first_with k h) × (recent s limit ≡ take (clamp limit) (reverse h))
unfolding find recent
recent_lem {s} {h} t k limit = (
  t.lookup_eq k,
  rw (count, order)
        (recent_loop-take s.by_id (min (length (reverse h)) (clamp limit)) (reverse h) found)
      ∙ take-min (clamp limit) (reverse h),
)
  where
    count : min (length s.order) (clamp limit) ≡ min (length (reverse h)) (clamp limit)
    count =
        ap (λ n. min n (clamp limit))
          (ap length t.order_eq ∙ length-map h _ ∙ sym (length-reverse h))

    order : reverse s.order ≡ numbers (reverse h)
    order = ap reverse t.order_eq ∙ numbers-reverse h

    found : All (λ d. lookup d.rcept_no s.by_id ≡ some d) (reverse h)
    found = All-reverse _ h (looked s h t h t.firsts)
