-- ===== src/Tests/Tagging.antt =====
-- The tagger on two companies, with an insertion sort for `std::sort`.
use mathlib.Core.List.{
  Mem, Perm, Pairwise, forall_mem-cons, not-mem-nil, mem-cons_self, mem-cons_of_mem,
}
use mathlib.Core.List.Pairwise
use mathlib.Core.List.Perm
use lemuel_quant_core.Base.{
  ℕ, not, ◌&&◌, ◌≤◌, ◌-◌, ◌/◌, ltb, ◌≡◌, refl, true, false, some, ◌≢◌, Bool, Bool-cases, inl, inr,
  List, [], ◌∷◌, arith, length, leb, leb→le, if◌then◌else◌, none,
}
use lemuel_quant_core.Base.Bytes.{Bytes, lit, bytes_eq, bytes_eq_iff, find}
use lemuel_quant_core.News.Rss.{RssSource}
use lemuel_quant_core.News.Sentiment.{Likelihood}
use lemuel_quant_core.Tests.News.{whole_weight}
use lemuel_quant_core.News.Tagger.{
  int_rank, ByAlias, Mention, add_company, add_alias, keys, lookup, tag,
}
use lemuel_quant_core.News.Tagger.Spans.{IsHit, tag-hits}
use lemuel_quant_core.News.Tagger.Longest.{mention_at, tag-longest}

-- An insertion sort by a Boolean test.
module _ {ℓ} {A : Type ℓ} (le : A → A → Bool) where
  insert_by : A → List A → List A
  insert_by x [] = x ∷ []
  insert_by x (y ∷ ys) = let rest = insert_by x ys in if le x y then x ∷ y ∷ ys else y ∷ rest

  sort_by : List A → List A
  unfolding insert_by
  sort_by [] = []
  sort_by (x ∷ xs) = insert_by x (sort_by xs)

  insert_by-perm : (x : A) (l : List A) → Perm (insert_by x l) (x ∷ l)
  unfolding insert_by
  insert_by-perm x [] = Perm.rfl
  insert_by-perm x (y ∷ ys) = elim (Bool-cases (le x y)) [
    | inl t ↦ rw (t, insert_by) Perm.rfl
    | inr f ↦ rw (f, insert_by) (Perm.trans (Perm.cons y (insert_by-perm x ys)) (Perm.swap x y ys))
  ]

  sort_by-perm : (l : List A) → Perm (sort_by l) l
  unfolding sort_by
  sort_by-perm [] = Perm.rfl
  sort_by-perm (x ∷ xs) = Perm.trans (insert_by-perm x (sort_by xs)) (Perm.cons x (sort_by-perm xs))

module _ {ℓ} {A : Type ℓ} (le : A → A → Bool) (total : (x y : A) → le x y ≡ false → le y x ≡ true)
    (through : (x y z : A) → le x y ≡ true → le y z ≡ true → le x z ≡ true) where
  insert_by-sorted :
      (x : A) (l : List A)
      → Pairwise (λ a b. le a b ≡ true) l
      → Pairwise (λ a b. le a b ≡ true) (insert_by le x l)
  unfolding insert_by
  insert_by-sorted x [] s = Pairwise.cons (λ y i. absurd (not-mem-nil i)) Pairwise.nil
  insert_by-sorted x (y ∷ ys) (Pairwise.cons h s) = elim (Bool-cases (le x y)) [
    | inl t ↦
        rw (t, insert_by)
          (Pairwise.cons ((forall_mem-cons (λ z. hlevel)).1 (t, λ z i. through x y z t (h z i)))
            (Pairwise.cons h s))
    | inr f ↦
        rw (f, insert_by)
          (Pairwise.cons
            (λ z i.
              (forall_mem-cons (λ z. hlevel)).1 (total x y f, h) z
                ((Perm.mem_iff (insert_by-perm le x ys)).0 i))
            (insert_by-sorted x ys s))
  ]

  sort_by-sorted : (l : List A) → Pairwise (λ a b. le a b ≡ true) (sort_by le l)
  unfolding sort_by
  sort_by-sorted [] = Pairwise.nil
  sort_by-sorted (x ∷ xs) = insert_by-sorted x (sort_by le xs) (sort_by-sorted xs)

abbrev longer : Bytes → Bytes → Bool
longer a b = leb (length b) (length a)

abbrev earlier : Mention → Mention → Bool
earlier h k = leb (int_rank h.span_start) (int_rank k.span_start)

by_size : List Bytes → List Bytes
unfolding sort_by
by_size = sort_by longer

by_start : List Mention → List Mention
unfolding sort_by
by_start = sort_by earlier

by_size-perm : (l : List Bytes) → Perm (by_size l) l
unfolding by_size
by_size-perm = sort_by-perm longer

by_size-sorted : (l : List Bytes) → Pairwise (λ b c. length c ≤ length b) (by_size l)
unfolding by_size
by_size-sorted l =
    Pairwise.imp (λ a b h. leb→le (length b) (length a) h)
      (sort_by-sorted longer (λ x y h. ground arith) (λ x y z h k. ground arith) l)

by_start-perm : (l : List Mention) → Perm (by_start l) l
unfolding by_start
by_start-perm = sort_by-perm earlier

by_start-sorted :
    (l : List Mention)
    → Pairwise (λ h k. int_rank h.span_start ≤ int_rank k.span_start) (by_start l)
unfolding by_start
by_start-sorted l =
    Pairwise.imp (λ h k e. leb→le (int_rank h.span_start) (int_rank k.span_start) e)
      (sort_by-sorted earlier (λ x y h. ground arith) (λ x y z h k. ground arith) l)

abbrev companies : ByAlias
unfolding add_company add_alias
companies =
    add_alias (λ m. m) (lit "005930") (lit "SEC")
      (add_company (lit "SECUI") (lit "163750") (add_company (lit "Samsung") (lit "005930") []))

abbrev news_text : Bytes
news_text = lit "SECUI and Samsung"

tag-hits_example :
    (hits : List Mention) × (tag by_size by_start companies news_text ≡ some hits)
    × ((h : Mention) → Mem h hits → IsHit companies news_text h)
    × Pairwise (λ h k. h.span_end ≤ k.span_start) hits
tag-hits_example =
    tag-hits by_size by_start by_size-perm by_start-perm by_start-sorted companies news_text
      (omega arith)

-- The text holds the alias "SEC" of another company, but inside the longer one.
first_hits :
    tag by_size by_start companies news_text
    ≡ some (
        mention_at (lit "SECUI") (lit "SECUI", lit "163750") 0
        ∷ mention_at (lit "Samsung") (lit "Samsung", lit "005930") 10
        ∷ [])
unfolding tag by_size by_start companies
first_hits = refl

others_absent :
    (b : Bytes)
    → Mem b (keys companies)
    → length (lit "SECUI") ≤ length b
    → b ≢ lit "SECUI"
    → find b (lit "by SECUI") ≡ none
unfolding companies
others_absent = (forall_mem-cons prop).1 (
  λ l n. refl,
  (forall_mem-cons prop).1 (
    λ l n. absurd (n refl),
    (forall_mem-cons prop).1 (λ l n. absurd (omega arith), λ b i. absurd (not-mem-nil i)),
  ),
)
  where
    prop :
        (b : Bytes)
        → IsProp
            (length (lit "SECUI") ≤ length b → b ≢ lit "SECUI" → find b (lit "by SECUI") ≡ none)
    prop b = hlevel

secui-is_key : Mem (lit "SECUI") (keys companies)
unfolding companies
secui-is_key = mem-cons_of_mem (lit "Samsung") mem-cons_self

lookup_secui : lookup (lit "SECUI") companies ≡ some (lit "SECUI", lit "163750")
unfolding companies
lookup_secui = refl

tag-longest_example :
    (hits : List Mention) × (tag by_size by_start companies (lit "by SECUI") ≡ some hits)
    × Mem (mention_at (lit "SECUI") (lit "SECUI", lit "163750") 3) hits
tag-longest_example =
    tag-longest by_size by_start by_size-perm by_size-sorted by_start-perm companies
      (lit "by SECUI") (lit "SECUI") (lit "SECUI", lit "163750") 3 secui-is_key lookup_secui
      (omega arith) (omega arith) refl others_absent

-- Dictionaries that do not have a ticker, by computation.
abbrev lacks : Bytes → ByAlias → Bool
lacks c [] = true
lacks c ((k, (corp, t)) ∷ m) = not (bytes_eq t c) && lacks c m

lacks-lookup :
    (c : Bytes) (m : ByAlias) (k : Bytes) (v : Bytes × Bytes)
    → lacks c m ≡ true
    → lookup k m ≡ some v
    → v.1 ≢ c
lacks-lookup c [] k v h e n = cc
lacks-lookup c ((j, (corp, t)) ∷ m) k v h e n = elim (Bool-cases (bytes_eq j k)) [
  | inl y ↦ let same : v.1 ≡ t = ground arith in ground (arith, bytes_eq_iff t c)
  | inr f ↦ lacks-lookup c m k v (ground arith) (ground arith) n
]

unknown_ticker : (k : Bytes) (v : Bytes × Bytes) → lookup k companies ≡ some v → v.1 ≢ lit "000660"
unfolding companies
unknown_ticker k v h = lacks-lookup (lit "000660") companies k v refl h

abbrev feeds : List RssSource
feeds = record { name = lit "yna"; feed_url = lit "feed" } ∷ []

-- Percent for probabilities.
instance abbrev percent : Likelihood ℕ
percent = record {
  one = 100;
  tenth = 10;
  minus = λ a b. a - b;
  divide = λ a b. a / b;
  exp = λ a. a;
  ge = λ a b. leb b a;
  less = λ a b. ltb a b;
}
