-- ===== src/Dart/Poll/Crawl.antt =====
-- The crawler end to end, with the in-memory store (modules/dart-crawler/src/main.cpp).
use mathlib.Core.List.{append_assoc, append-nil}
use lemuel_quant_core.Base.{
  ℕ, zero, suc, ◌-◌, ◌≡◌, refl, ◌∙◌, sym, ap, Bool, true, false, ◌||◌, ◌⊎◌, none, some, List, [],
  ◌∷◌, ◌++◌, arith, if◌then◌else◌, length, drop, inl, inr, Bool-cases, Option-cases,
}
use lemuel_quant_core.Base.Bytes.{Bytes, bytes_eq, bytes_eq_iff}
use lemuel_quant_core.Dart.{Disclosure}
use lemuel_quant_core.Dart.Store.{Store, empty, insert}
use lemuel_quant_core.Dart.Store.History.{
  Tracks, first_with, note, is_new, numbers, empty-Tracks, insert-Tracks, first_with-snoc_some,
  first_with-snoc_none,
}
use lemuel_quant_core.Dart.Poll.{member, start, max_seen, poll_loop, on_new_all, crawl}
use lemuel_quant_core.Dart.Poll.Window.{report, report_all, listed, last, poll_loop-eq-report}

abbrev pub note_all : List Disclosure → List Disclosure → List Disclosure
note_all h [] = h
note_all h (d ∷ ds) = note_all (note h d) ds

note_all-append : (h ds es : List Disclosure) → note_all h (ds ++ es) ≡ note_all (note_all h ds) es
note_all-append h [] es = refl
note_all-append h (d ∷ ds) es = note_all-append (note h d) ds es

note-if :
    (h : List Disclosure) (d : Disclosure) → note h d ≡ (if is_new h d then h ++ d ∷ [] else h)
note-if h d = elim (Option-cases (first_with d.rcept_no h)) [
  | inl n ↦ rw (n, note, is_new) refl
  | inr (e, p) ↦ rw (p, note, is_new) refl
]

cons_if :
    (b : Bool) (h out : List Disclosure) (d : Disclosure)
    → (if b then h ++ d ∷ [] else h) ++ out ≡ h ++ (if b then d ∷ out else out)
cons_if true h out d = append_assoc h (d ∷ []) out
cons_if false h out d = refl

on_new_all_lem :
    (s : Store) (h ds : List Disclosure)
    → Tracks s h
    → Tracks (on_new_all s ds).0 (note_all h ds) × (note_all h ds ≡ h ++ (on_new_all s ds).1)
unfolding on_new_all
on_new_all_lem s h [] t = (t, sym (append-nil h))
on_new_all_lem s h (d ∷ ds) t =
    let (t1, e1) = insert-Tracks t d in
    let (s1, b) = insert s d in
    let (t2, e2) = on_new_all_lem s1 (note h d) ds t1 in
    (
      t2,
      e2
          ∙ ap (λ r. r ++ (on_new_all s1 ds).1) (note-if h d)
          ∙ cons_if (is_new h d) h (on_new_all s1 ds).1 d
          ∙ ap (λ c. h ++ (if c then d ∷ (on_new_all s1 ds).1 else (on_new_all s1 ds).1)) (sym e1),
    )

abbrev has : Bytes → List Disclosure → Bool
has k h = elim (first_with k h) [ none ↦ false | some _ ↦ true ]

has-snoc :
    (k : Bytes) (h : List Disclosure) (d : Disclosure)
    → has k (h ++ d ∷ []) ≡ (has k h || bytes_eq d.rcept_no k)
has-snoc k h d = elim (Option-cases (first_with k h)) [
  | inl n ↦ rw (first_with-snoc_none k h d n, n, has) (ground arith)
  | inr (e, p) ↦ rw (first_with-snoc_some k h d e p, p, has) refl
]

has-note :
    (k : Bytes) (h : List Disclosure) (d : Disclosure)
    → has k (note h d) ≡ (has k h || bytes_eq d.rcept_no k)
has-note k h d = elim (Option-cases (first_with d.rcept_no h)) [
  | inl n ↦ rw (n, note) (has-snoc k h d)
  | inr (e, p) ↦ rw (p, note) (ground (arith, bytes_eq_iff d.rcept_no k))
]

has-note_all :
    (k : Bytes) (h ds : List Disclosure)
    → has k (note_all h ds) ≡ (has k h || member k (numbers ds))
has-note_all k h [] = ground arith
has-note_all k h (d ∷ ds) = has-note_all k (note h d) ds ∙ ground (arith, has-note k h d)

member-drop :
    (k : Bytes) (n : ℕ) (xs : List Bytes) → member k (drop n xs) ≡ true → member k xs ≡ true
member-drop k zero xs h = h
member-drop k (suc n) [] h = h
member-drop k (suc n) (x ∷ xs) h = ground (arith, member-drop k n xs h)

note_known : (h : List Disclosure) (d : Disclosure) → has d.rcept_no h ≡ true → note h d ≡ h
note_known h d p = ground arith

-- What the bounded set hides is known to the store.
note_all-report :
    (cap : ℕ) (rep ds : List Disclosure)
    → note_all [] (report_all cap rep ds) ≡ note_all (note_all [] rep) ds
note_all-report cap rep [] = refl
note_all-report cap rep (d ∷ ds) =
    note_all-report cap (report cap rep d) ds ∙ ap (λ h. note_all h ds) (step (Bool-cases _))
  where
    step :
        (member d.rcept_no (last cap (numbers rep)) ≡ true)
          ⊎ (member d.rcept_no (last cap (numbers rep)) ≡ false)
        → note_all [] (report cap rep d) ≡ note (note_all [] rep) d
    step (inl m) =
        rw (m, report)
          (sym (
            note_known (note_all [] rep) d (
              has-note_all d.rcept_no [] rep
              ∙ member-drop d.rcept_no (length (numbers rep) - cap) (numbers rep) m)))
    step (inr m) = rw (m, report) (note_all-append [] rep (d ∷ []))

-- Whatever pages the server sends, the crawler prints and stores the first disclosure listed with
-- each receipt number, in the order of listing, and nothing else: the bound on the set that the poller
-- keeps neither loses nor repeats one.
pub crawl_lem :
    (pages : List (List Disclosure))
    → ((crawl pages).1 ≡ note_all [] (listed pages))
      × Tracks (crawl pages).0 (note_all [] (listed pages))
unfolding crawl
crawl_lem pages =
    let out = (poll_loop max_seen start pages).1 in
    let (t, e) = on_new_all_lem empty [] out empty-Tracks in
    let same : note_all [] out ≡ note_all [] (listed pages) =
      ap (note_all []) (poll_loop-eq-report max_seen pages).0
      ∙ note_all-report max_seen [] (listed pages) in
    (sym e ∙ same, rw (← same) t)
