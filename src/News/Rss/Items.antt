-- ===== src/News/Rss/Items.antt =====
-- The rounds of the loop over the items of a feed (modules/news-pipeline/src/rss_crawler.cpp).
use lemuel_quant_core.Base.{
  ℕ, zero, suc, ◌+◌, ◌-◌, ◌≤◌, ◌<◌, ◌≡◌, refl, sym, ap, some, Option-cases, Bool-cases, inl, inr,
  [], ◌∷◌, arith, length, drop, leb,
}
use lemuel_quant_core.Base.Bytes.{Bytes, lit, find, find_from, substr}
use lemuel_quant_core.News.Rss.{items_loop, item, parse_rss_items}

-- A search from a position finds nothing before it, and nothing from a position behind the end.
find_from_bound : (pat s : Bytes) (p i : ℕ) → find_from pat s p ≡ some i → (p ≤ i) × (p ≤ length s)
find_from_bound pat s p i h = elim (Bool-cases (leb p (length s))) [
  | inl t ↦ elim (Option-cases (find pat (drop p s))) [
    | inl n ↦ ground (arith, n)
    | inr (j, e) ↦ ground (arith, e)
  ]
  | inr f ↦ ground arith
]

-- Behind the end no item starts.
items_loop_end : (f : ℕ) (xml : Bytes) (p : ℕ) → length xml < p → items_loop f xml p ≡ []
unfolding items_loop
items_loop_end zero xml p h = refl
items_loop_end (suc f) xml p h = elim (Option-cases (find_from (lit "<item") xml p)) [
  | inl n ↦ rw (n, items_loop) refl
  | inr (start, e) ↦ absurd (omega (arith, (find_from_bound (lit "<item") xml p start e).1))
]

items_loop_enough :
    (f g : ℕ) (xml : Bytes) (p : ℕ)
    → suc (length xml) < f + p
    → suc (length xml) < g + p
    → items_loop f xml p ≡ items_loop g xml p
unfolding items_loop
items_loop_enough zero g xml p hf hg = sym (items_loop_end g xml p (omega arith))
items_loop_enough (suc f) zero xml p hf hg = items_loop_end (suc f) xml p (omega arith)
items_loop_enough (suc f) (suc g) xml p hf hg =
    elim (Option-cases (find_from (lit "<item") xml p)) [
      | inl n ↦ rw (n, items_loop) refl
      | inr (start, e) ↦ elim (Option-cases (find_from (lit "</item>") xml start)) [
        | inl n ↦ rw (e, n, items_loop) refl
        | inr (end, e2) ↦
            let p1 : p ≤ start = (find_from_bound (lit "<item") xml p start e).0 in
            let p2 : start ≤ end = (find_from_bound (lit "</item>") xml start end e2).0 in
            rw (e, e2, items_loop)
              (ap (◌∷◌ (item (substr xml start (end - start))))
                (items_loop_enough f g xml (end + 7) (omega arith) (omega arith)))
      ]
    ]

-- The loop over the items of a feed ends: after more rounds than the feed has bytes, and one more, it
-- has all that it finds, and further rounds add nothing.
pub items_loop-eq-parse_rss_items :
    (rounds : ℕ) (xml : Bytes)
    → suc (length xml) < rounds
    → items_loop rounds xml 0 ≡ parse_rss_items xml
unfolding parse_rss_items
items_loop-eq-parse_rss_items rounds xml h =
    items_loop_enough rounds (length xml + 2) xml 0 (omega arith) (omega arith)
