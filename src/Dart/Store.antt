-- ===== src/Dart/Store.antt =====
-- `InMemoryStore` of modules/dart-crawler/src/disclosure_store.cpp. The hash map is an association
-- list; no operation of the store shows its order. A method is one atomic step under the lock.
pub mod History
use lemuel_quant_core.Base.{
  ℕ, zero, suc, Bool, true, false, Option, none, some, List, [], ◌∷◌, ◌++◌, reverse, if◌then◌else◌,
  length, take, min,
}
use lemuel_quant_core.Base.Bytes.{Bytes, bytes_eq}
use lemuel_quant_core.Base.Int.{ℤ, pos, negsuc}
use lemuel_quant_core.Dart.{Disclosure}

-- The map: `find`, and `emplace` of a key that is absent.
abbrev pub lookup : Bytes → List (Bytes × Disclosure) → Option Disclosure
lookup k [] = none
lookup k ((j, d) ∷ m) = if bytes_eq j k then some d else lookup k m

pub record Store : Type 0 where
  pub by_id : List (Bytes × Disclosure)
  pub order : List Bytes

abbrev pub empty : Store
empty = record { by_id = []; order = [] }

unfoldable pub insert : Store → Disclosure → Store × Bool
insert s d = elim (lookup d.rcept_no s.by_id) [
  | some _ ↦ (s, false)
  | none ↦ (record { by_id = (d.rcept_no, d) ∷ s.by_id; order = s.order ++ d.rcept_no ∷ [] }, true)
]

unfoldable pub find : Store → Bytes → Option Disclosure
find s rcept_no = lookup rcept_no s.by_id

-- What `by_id_[key]` makes for a key that is absent.
abbrev pub blank : Disclosure
blank = record {
  corp_code = [];
  corp_name = [];
  stock_code = [];
  corp_cls = [];
  report_nm = [];
  rcept_no = [];
  flr_nm = [];
  rcept_dt = [];
  rm = [];
}

abbrev pub index : List (Bytes × Disclosure) → Bytes → Disclosure
index m k = elim (lookup k m) [ none ↦ blank | some d ↦ d ]

-- `max(0, limit)`.
abbrev pub clamp : ℤ → ℕ
clamp (pos n) = n
clamp (negsuc n) = 0

-- The loop of `recent` from the back of `order` on, while fewer than `count` are out.
unfoldable pub recent_loop : ℕ → List (Bytes × Disclosure) → List Bytes → List Disclosure
recent_loop zero m ks = []
recent_loop (suc n) m [] = []
recent_loop (suc n) m (k ∷ ks) = index m k ∷ recent_loop n m ks

unfoldable pub recent : Store → ℤ → List Disclosure
unfolding recent_loop
recent s limit = recent_loop (min (length s.order) (clamp limit)) s.by_id (reverse s.order)
