-- ===== src/Dart/Poll.antt =====
-- `DartClient::poll_loop` (modules/dart-crawler/src/dart_client.cpp) and the callback of
-- modules/dart-crawler/src/main.cpp. The pages that `list` returns, one for each round in which
-- `keep_running` holds, are an argument; the hash set is a list whose order nothing shows.
pub mod Window
pub mod Crawl
use lemuel_quant_core.Base.{
  ℕ, Bool, true, false, ◌||◌, List, [], ◌∷◌, ◌++◌, ltb, if◌then◌else◌, length,
}
use lemuel_quant_core.Base.Bytes.{Bytes, bytes_eq}
use lemuel_quant_core.Dart.{Disclosure}
use lemuel_quant_core.Dart.Store.{Store, empty, insert}

abbrev pub max_seen : ℕ
max_seen = 10_000

abbrev pub member : Bytes → List Bytes → Bool
member k [] = false
member k (x ∷ xs) = bytes_eq x k || member k xs

abbrev pub erase : Bytes → List Bytes → List Bytes
erase k [] = []
erase k (x ∷ xs) = if bytes_eq x k then erase k xs else x ∷ erase k xs

-- The set `seen` and the queue `seen_order`, front first.
pub record Seen : Type 0 where
  pub seen : List Bytes
  pub order : List Bytes

abbrev pub start : Seen
start = record { seen = []; order = [] }

-- `seen.erase(seen_order.front()); seen_order.pop_front();`
abbrev pub evict : List Bytes → List Bytes → Seen
evict seen [] = record { seen = seen; order = [] }
evict seen (front ∷ order) = record { seen = erase front seen; order = order }

-- One disclosure of a page, for a bound on the set: is it handed to `on_new`?
unfoldable pub poll_one : ℕ → Seen → Disclosure → Seen × Bool
poll_one cap s d =
    let seen = d.rcept_no ∷ s.seen in
    let order = s.order ++ d.rcept_no ∷ [] in
    if member d.rcept_no s.seen
    then (s, false)
    else if ltb cap (length order)
    then (evict seen order, true)
    else (record { seen = seen; order = order }, true)

-- A page, and the disclosures handed to `on_new`.
unfoldable pub poll_page : ℕ → Seen → List Disclosure → Seen × List Disclosure
poll_page cap s [] = (s, [])
poll_page cap s (d ∷ ds) =
    let (s1, new) = poll_one cap s d in
    let (s2, out) = poll_page cap s1 ds in (s2, if new then d ∷ out else out)

unfoldable pub poll_loop : ℕ → Seen → List (List Disclosure) → Seen × List Disclosure
poll_loop cap s [] = (s, [])
poll_loop cap s (page ∷ pages) =
    let (s1, out) = poll_page cap s page in
    let (s2, more) = poll_loop cap s1 pages in (s2, out ++ more)

-- The callback of `main` over what the loop hands on: what is stored, and what is printed as new.
unfoldable pub on_new_all : Store → List Disclosure → Store × List Disclosure
on_new_all store [] = (store, [])
on_new_all store (d ∷ ds) =
    let (store1, inserted) = insert store d in
    let (store2, printed) = on_new_all store1 ds in
    (store2, if inserted then d ∷ printed else printed)

-- `main` with the in-memory store.
unfoldable pub crawl : List (List Disclosure) → Store × List Disclosure
crawl pages = on_new_all empty (poll_loop max_seen start pages).1
