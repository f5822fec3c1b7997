-- ===== src/News/Rss.antt =====
-- The feed crawler (modules/news-pipeline/src/rss_crawler.cpp). The transfer, which gives the empty text
-- when it fails, is an argument. The time of publication, which is the time of the fetch, is left out.
pub mod Plain
pub mod Items
use lemuel_quant_core.Base.{
  ℕ, zero, suc, ◌+◌, ◌-◌, Bool, true, false, ◌==◌, if◌then◌else◌, Option, none, some, List, [], ◌∷◌,
  ◌++◌, map, length,
}
use lemuel_quant_core.Base.Bytes.{Bytes, lit, find, find_from, substr, is_empty}

-- The loop of `strip_tags`, with the flag `in_tag`.
abbrev pub strip_from : Bool → Bytes → Bytes
strip_from in_tag [] = []
strip_from in_tag (c ∷ html) =
    if c == 0x3C
    then strip_from true html
    else if c == 0x3E
    then strip_from false html
    else if in_tag
    then strip_from in_tag html
    else c ∷ strip_from in_tag html

unfoldable pub strip_tags : Bytes → Bytes
strip_tags html = strip_from false html

-- The text of a CDATA section, if there is a whole one.
abbrev without_cdata : Bytes → Bytes
without_cdata raw = elim (find (lit "<![CDATA[") raw) [
  | none ↦ raw
  | some cdata ↦ elim (find_from (lit "]]>") raw cdata) [
    | none ↦ raw
    | some end_cdata ↦ substr raw (cdata + 9) (end_cdata - cdata - 9)
  ]
]

unfoldable find_tag : Bytes → Bytes → Bytes
find_tag block tag = elim (find (lit "<" ++ tag) block) [
  | none ↦ []
  | some a ↦ elim (find_from (lit ">") block a) [
    | none ↦ []
    | some open_end ↦ elim (find_from (lit "</" ++ tag ++ lit ">") block open_end) [
      | none ↦ []
      | some b ↦ without_cdata (substr block (open_end + 1) (b - open_end - 1))
    ]
  ]
]

abbrev pub item : Bytes → Bytes × Bytes
unfolding find_tag
item block = (find_tag block (lit "title"), find_tag block (lit "link"))

-- The titles and links behind a position; on fuel.
unfoldable pub items_loop : ℕ → Bytes → ℕ → List (Bytes × Bytes)
items_loop zero xml p = []
items_loop (suc fuel) xml p = elim (find_from (lit "<item") xml p) [
  | none ↦ []
  | some start ↦ elim (find_from (lit "</item>") xml start) [
    | none ↦ []
    | some end ↦ item (substr xml start (end - start)) ∷ items_loop fuel xml (end + 7)
  ]
]

unfoldable pub parse_rss_items : Bytes → List (Bytes × Bytes)
unfolding items_loop
parse_rss_items xml = items_loop (length xml + 2) xml 0

pub record RssSource : Type 0 where
  pub name : Bytes
  pub feed_url : Bytes

pub record Article : Type 0 where
  pub source : Bytes
  pub url : Bytes
  pub title : Bytes
  pub body : Bytes

module _ (http_get : Bytes → Bytes) where
  abbrev article : RssSource → Bytes × Bytes → Article
  article src (title, link) = record { source = src.name; url = link; title = title; body = [] }

  unfoldable pub fetch : List RssSource → List Article
  unfolding parse_rss_items
  fetch [] = []
  fetch (src ∷ sources) =
      let xml = http_get src.feed_url in
      let rest = fetch sources in
      if is_empty xml then rest else map (article src) (parse_rss_items xml) ++ rest

  unfoldable pub hydrate_body : Article → Article
  unfolding strip_tags
  hydrate_body a = if is_empty a.url then a else record {
    source = a.source;
    url = a.url;
    title = a.title;
    body = strip_tags (http_get a.url);
  }

unfoldable default_korean_sources : List RssSource
default_korean_sources =
    record { name = lit "yna"; feed_url = lit "https://www.yna.co.kr/rss/economy.xml" }
    ∷ record { name = lit "hankyung"; feed_url = lit "https://www.hankyung.com/feed/finance" }
    ∷ record { name = lit "mt"; feed_url = lit "https://rss.mt.co.kr/mt_rss.xml" }
    ∷ []
