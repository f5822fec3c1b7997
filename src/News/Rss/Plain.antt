-- ===== src/News/Rss/Plain.antt =====
-- What `strip_tags` leaves (modules/news-pipeline/src/rss_crawler.cpp).
use lemuel_quant_core.Base.{
  ◌≡◌, ◌≢◌, refl, ◌∙◌, ap, Bool, true, false, ◌==◌, if◌then◌else◌, Bool-cases, inl, inr, [], ◌∷◌,
  ◌++◌, All, arith,
}
use lemuel_quant_core.Base.Bytes.{Bytes}
use lemuel_quant_core.News.Rss.{strip_from, strip_tags}

-- No bracket of a tag.
abbrev pub Plain : Bytes → Type 0
Plain = All (λ c. (c ≢ 0x3C) × (c ≢ 0x3E))

strip_from-Plain : (b : Bool) (s : Bytes) → Plain (strip_from b s)
strip_from-Plain b [] = tt
strip_from-Plain b (c ∷ s) = elim (Bool-cases (c == 0x3C)) [
  | inl t ↦ rw (t, strip_from) (strip_from-Plain true s)
  | inr f ↦ elim (Bool-cases (c == 0x3E)) [
    | inl t ↦ rw (f, t, strip_from) (strip_from-Plain false s)
    | inr g ↦
        rw (f, g, strip_from)
          (elim b as (λ b. Plain (if b then strip_from b s else c ∷ strip_from b s)) [
            | true ↦ strip_from-Plain true s
            | false ↦ ((ground arith, ground arith), strip_from-Plain false s)
          ])
  ]
]

strip_from_kept : (s : Bytes) → Plain s → strip_from false s ≡ s
strip_from_kept [] p = refl
strip_from_kept (c ∷ s) ((a, b), p) = ground (arith, strip_from_kept s p)

strip_from_tag :
    (b : Bool) (tag s : Bytes) → Plain tag → strip_from true (tag ++ 0x3E ∷ s) ≡ strip_from false s
strip_from_tag b [] s p = refl
strip_from_tag b (c ∷ tag) s ((x, y), p) = ground (arith, strip_from_tag b tag s p)

strip_from_text :
    (text s : Bytes) → Plain text → strip_from false (text ++ s) ≡ text ++ strip_from false s
strip_from_text [] s p = refl
strip_from_text (c ∷ text) s ((x, y), p) = ground (arith, strip_from_text text s p)

-- The stripped text has no angle bracket, and stripping it again changes nothing.
strip_tags_idem :
    (html : Bytes) → Plain (strip_tags html) × (strip_tags (strip_tags html) ≡ strip_tags html)
unfolding strip_tags
strip_tags_idem html = (
  strip_from-Plain false html,
  strip_from_kept (strip_from false html) (strip_from-Plain false html),
)

-- Text, a tag and more: without angle brackets in the text and inside the tag, the text stays and the
-- tag goes.
strip_tags-append :
    (text tag rest : Bytes)
    → Plain text
    → Plain tag
    → strip_tags (text ++ 0x3C ∷ (tag ++ 0x3E ∷ rest)) ≡ text ++ strip_tags rest
unfolding strip_tags
strip_tags-append text tag rest p q =
    strip_from_text text (0x3C ∷ (tag ++ 0x3E ∷ rest)) p
    ∙ ap (λ s. text ++ s) (strip_from_tag true tag rest q)
