-- ===== src/News/Tagger/Spans.antt =====
-- What `tag` returns: mentions of aliases that stand in the text, one behind the other
-- (modules/news-pipeline/src/ner.cpp).
use mathlib.Core.List.{
  Mem, Perm, Pairwise, Pairwise-append, Pairwise-singleton, mem-append, mem-append_left,
  forall_mem-cons, not-mem-nil, mem-cons, mem-cons_self, mem-cons_of_mem,
}
use mathlib.Core.List.Pairwise
use mathlib.Core.List.Perm
use mathlib.Core.Logic.Or
use native.Mathlib.Bridge.{le_prop}
use lemuel_quant_core.Base.{
  ℕ, zero, suc, ◌+◌, ◌-◌, ◌≤◌, ◌<◌, ◌≡◌, refl, Bool, true, false, ◌||◌, some, none, Option-cases,
  Bool-cases, inl, inr, List, [], ◌∷◌, ◌++◌, arith, length, leb, leb→le,
}
use lemuel_quant_core.Base.Bytes.{Bytes, bytes_eq, bytes_eq_iff, find_from, substr}
use lemuel_quant_core.News.Tagger.{
  ByAlias, Mention, Scanned, as_int, int_rank, lookup, keys, overlaps, fill, occurrence, scan,
  scan_all, tag,
}
use lemuel_quant_core.News.Tagger.Scan.{find_from-occurs, overlaps_none}

-- The span of a mention is inside the text, it is not empty, and the text in it is an alias of the
-- company that the mention names.
abbrev pub IsHit : ByAlias → Bytes → Mention → Type 0
IsHit m body h =
    (h.span_start < h.span_end)
    × (h.span_end ≤ length body)
    × (lookup (substr body h.span_start (h.span_end - h.span_start)) m
        ≡ some (h.corp_name, h.ticker))

IsHit-prop : (m : ByAlias) (body : Bytes) (h : Mention) → IsProp (IsHit m body h)
IsHit-prop m body h = hlevel le_prop

abbrev IsApart : Mention → Mention → Type 0
IsApart h k = (leb h.span_end k.span_start || leb k.span_end h.span_start) ≡ true

-- Every offset of the text is an `int`.
abbrev pub Fits : Bytes → Type 0
Fits body = length body < 2_147_483_648

pub record Good (m : ByAlias) (body : Bytes) (st : Scanned) : Type 0 where
  pub fits : Fits body
  pub spans : (h : Mention) → Mem h st.0 → IsHit m body h
  pub covered :
      (h : Mention) → Mem h st.0 → (i : ℕ) → h.span_start ≤ i → i < h.span_end → st.1 i ≡ true
  pub apart : Pairwise IsApart st.0

module _ {ℓ κ} {A : Type ℓ} {P : A → Type κ} (prop : (x : A) → IsProp (P x)) where
  forall_snoc :
      (xs : List A) (x : A)
      → ((y : A) → Mem y xs → P y)
      → P x
      → (y : A) → Mem y (xs ++ x ∷ [])
      → P y
  forall_snoc xs x h p y e =
      Or.elim (prop y) (mem-append.0 e) (h y)
        ((forall_mem-cons prop).1 (p, λ z n. absurd (not-mem-nil n)) y)

covered-IsApart :
    (h k : Mention) (consumed : ℕ → Bool)
    → h.span_start < h.span_end
    → k.span_start < k.span_end
    → ((i : ℕ) → h.span_start ≤ i → i < h.span_end → consumed i ≡ true)
    → ((i : ℕ) → k.span_start ≤ i → i < k.span_end → consumed i ≡ false)
    → IsApart h k
covered-IsApart h k consumed eh ek ch ck = elim (Bool-cases (leb h.span_start k.span_start)) [
  | inl t ↦ ground (
    arith,
    ch k.span_start (leb→le h.span_start k.span_start t),
    ck k.span_start (omega arith) ek,
  )
  | inr f ↦ ground (arith, ch h.span_start (omega arith) eh, ck h.span_start (ground arith))
]

-- No mention is lost.
abbrev Kept : Scanned → Scanned → Type 0
Kept st new = (h : Mention) → Mem h st.0 → Mem h new.0

-- A mention of free indices joins the others.
Good-snoc :
    (m : ByAlias) (body : Bytes) (hits : List Mention) (consumed : ℕ → Bool) (new : Mention)
    → Good m body (hits, consumed)
    → IsHit m body new
    → ((i : ℕ) → new.span_start ≤ i → i < new.span_end → consumed i ≡ false)
    → Good m body (hits ++ new ∷ [], fill new.span_start new.span_end consumed)
Good-snoc m body hits consumed new g hit free = record {
  fits = g.fits;
  spans = forall_snoc (IsHit-prop m body) hits new g.spans hit;
  covered =
      forall_snoc (λ h. hlevel) hits new
        (λ h e i low high. let c = g.covered h e i low high in ground arith)
        (λ i low high. ground arith);
  apart = (Pairwise-append (λ h k. hlevel)).1 (
    g.apart,
    Pairwise-singleton _ new,
    λ h e. (forall_mem-cons (λ k. hlevel)).1 (
      covered-IsApart h new consumed (g.spans h e).0 hit.0 (g.covered h e) free,
      λ k n. absurd (not-mem-nil n),
    ),
  );
}

pub occurrence_lem :
    (m : ByAlias) (body a : Bytes) (q : ℕ) (v : Bytes × Bytes) (st : Scanned)
    → lookup a m ≡ some v
    → 0 < length a
    → substr body q (length a) ≡ a
    → q + length a ≤ length body
    → Good m body st
    → (new : Scanned) × (occurrence m a q st ≡ some new) × Good m body new × Kept st new
unfolding occurrence
occurrence_lem m body a q v (hits, consumed) known ha text inside g =
    elim (Bool-cases (overlaps (length a) q consumed)) [
      | inl t ↦ ((hits, consumed), rw (t, occurrence) refl, g, λ h e. e)
      | inr f ↦
          let new : Mention = record {
            ticker = v.1;
            corp_name = v.0;
            span_start = q;
            span_end = q + length a;
          } in
          let start : as_int q ≡ q = omega (arith, g.fits) in
          let end : as_int (q + length a) ≡ q + length a = omega (arith, g.fits) in
          let width : q + length a - q ≡ length a = omega arith in
          (
            (hits ++ new ∷ [], fill q (q + length a) consumed),
            rw (f, known, start, end, occurrence) refl,
            Good-snoc m body hits consumed new g (omega arith, inside, rw (width, text) known)
                (overlaps_none (length a) q consumed f),
            λ h e. mem-append_left (new ∷ []) e,
          )
    ]

pub scan_lem :
    (fuel : ℕ) (m : ByAlias) (body a : Bytes) (p : ℕ) (v : Bytes × Bytes) (st : Scanned)
    → lookup a m ≡ some v
    → 0 < length a
    → Good m body st
    → (new : Scanned) × (scan fuel m a body p st ≡ some new) × Good m body new × Kept st new
unfolding scan
scan_lem zero m body a p v st known ha g = (st, refl, g, λ h e. e)
scan_lem (suc fuel) m body a p v st known ha g = elim (Option-cases (find_from a body p)) [
  | inl n ↦ (st, rw (n, scan) refl, g, λ h i. i)
  | inr (q, e) ↦
      let (low, text, inside) = find_from-occurs a body p q e in
      let (st1, e1, g1, k1) = occurrence_lem m body a q v st known ha text inside g in
      let (st2, e2, g2, k2) = scan_lem fuel m body a (q + length a) v st1 known ha g1 in
      (st2, rw (e, e1, scan) e2, g2, λ h i. k2 h (k1 h i))
]

abbrev pub is_known : ByAlias → Bytes → Bool
is_known m a = elim (lookup a m) [ none ↦ false | some v ↦ true ]

known_lookup :
    (m : ByAlias) (a : Bytes) → is_known m a ≡ true → (v : Bytes × Bytes) × (lookup a m ≡ some v)
known_lookup m a h = elim (Option-cases (lookup a m)) [
  | inl n ↦ absurd (ground (arith, n))
  | inr e ↦ e
]

pub keys-known : (m : ByAlias) (a : Bytes) → Mem a (keys m) → is_known m a ≡ true
keys-known [] a e = absurd (not-mem-nil e)
keys-known ((k, v) ∷ m) a e = elim (Bool-cases (bytes_eq k a)) [
  | inl t ↦ rw (t, is_known, lookup) refl
  | inr f ↦
      let prop : IsProp (is_known m a ≡ true) = hlevel in
      let rest : is_known m a ≡ true =
        Or.elim prop (mem-cons.0 e) (λ s. absurd (ground (arith, bytes_eq_iff k a)))
          (keys-known m a) in
      rw (f, is_known, lookup) rest
]

pub Good-start : (m : ByAlias) (body : Bytes) → Fits body → Good m body ([], λ i. false)
Good-start m body fits = record {
  fits = fits;
  spans = λ h e. absurd (not-mem-nil e);
  covered = λ h e. absurd (not-mem-nil e);
  apart = Pairwise.nil;
}

pub scan_all_lem :
    (m : ByAlias) (body : Bytes) (aliases : List Bytes) (st : Scanned)
    → ((a : Bytes) → Mem a aliases → is_known m a ≡ true)
    → Good m body st
    → (new : Scanned) × (scan_all m body aliases st ≡ some new) × Good m body new × Kept st new
unfolding scan_all
scan_all_lem m body [] st known g = (st, refl, g, λ h e. e)
scan_all_lem m body ([] ∷ aliases) st known g =
    scan_all_lem m body aliases st (λ a e. known a (mem-cons_of_mem [] e)) g
scan_all_lem m body ((c ∷ a) ∷ aliases) st known g =
    let (v, ev) = known_lookup m (c ∷ a) (known (c ∷ a) mem-cons_self) in
    let (st1, e1, g1, k1) = scan_lem (suc (length body)) m body (c ∷ a) 0 v st ev (omega arith) g in
    let (st2, e2, g2, k2) =
      scan_all_lem m body aliases st1 (λ b e. known b (mem-cons_of_mem (c ∷ a) e)) g1 in
    (st2, rw (e1, scan_all) e2, g2, λ h i. k2 h (k1 h i))

-- Of two mentions that are apart, the one with the lower start ends before the other starts.
starts_before :
    (m : ByAlias) (body : Bytes) (h k : Mention)
    → Fits body
    → IsHit m body h
    → IsHit m body k
    → (int_rank h.span_start ≤ int_rank k.span_start) × IsApart h k
    → h.span_end ≤ k.span_start
starts_before m body h k fits (h0, h1, h2) (k0, k1, k2) (r, a) =
    let start : int_rank h.span_start ≡ h.span_start + 2_147_483_648 = omega arith in
    let next : int_rank k.span_start ≡ k.span_start + 2_147_483_648 = omega arith in
    let low : h.span_start ≤ k.span_start = omega arith in ground arith

module _ (by_size : List Bytes → List Bytes) (by_start : List Mention → List Mention)
    (size_perm : (l : List Bytes) → Perm (by_size l) l)
    (start_perm : (l : List Mention) → Perm (by_start l) l)
    (start_sorted : (l : List Mention)
      → Pairwise (λ h k. int_rank h.span_start ≤ int_rank k.span_start) (by_start l)) where
  -- If every offset of the text is an `int`, and the two sorts reorder their lists and the second one sorts
  -- by the start as an `int`, `tag` never throws; the
  -- text of each of its mentions is an alias of the company that the mention names; and each mention
  -- ends before the next ones start.
  pub tag-hits :
      (m : ByAlias) (body : Bytes)
      → Fits body
      → (hits : List Mention) × (tag by_size by_start m body ≡ some hits)
        × ((h : Mention) → Mem h hits → IsHit m body h)
        × Pairwise (λ h k. h.span_end ≤ k.span_start) hits
  unfolding tag
  tag-hits m body fits =
      let (st, e, g, k) =
        scan_all_lem m body (by_size (keys m)) ([], λ i. false)
          (λ a i. keys-known m a ((Perm.mem_iff (size_perm (keys m))).0 i))
          (Good-start m body fits) in
      let spans : (h : Mention) → Mem h (by_start st.0) → IsHit m body h =
        λ h i. g.spans h ((Perm.mem_iff (start_perm st.0)).0 i) in
      let apart : Pairwise IsApart (by_start st.0) =
        Perm.pairwise (λ h k. hlevel) (λ h k a. ground arith) (Perm.symm (start_perm st.0))
          g.apart in
      (
        by_start st.0,
        rw (e, tag) refl,
        spans,
        Pairwise.imp_of_mem
            (λ h k i j r.
              let a = spans h i in let b = spans k j in starts_before m body h k fits a b r)
            (Pairwise.and (start_sorted st.0) apart),
      )
