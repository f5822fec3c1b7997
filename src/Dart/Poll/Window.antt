-- ===== src/Dart/Poll/Window.antt =====
-- The bounded set of `poll_loop` (modules/dart-crawler/src/dart_client.cpp) against the list of what was
-- reported.
use mathlib.Core.List.{map-append, append_assoc, append-nil}
use lemuel_quant_core.Base.{
  ℕ, zero, suc, ◌-◌, ◌≤◌, ◌<◌, ◌≡◌, refl, ◌∙◌, sym, ap, Bool, true, false, ◌||◌, List, [], ◌∷◌,
  ◌++◌, arith, ltb, if◌then◌else◌, length, drop, length-append, length-drop, inl, inr, Bool-cases,
  ltb→lt, subst,
}
use lemuel_quant_core.Base.Bytes.{Bytes, bytes_eq, bytes_eq_iff}
use lemuel_quant_core.Dart.{Disclosure}
use lemuel_quant_core.Dart.Store.History.{numbers}
use lemuel_quant_core.Dart.Poll.{member, erase, Seen, start, evict, poll_one, poll_page, poll_loop}

-- The last `n` of a list.
abbrev pub last : ℕ → List Bytes → List Bytes
last n xs = drop (length xs - n) xs

-- A disclosure is reported unless its number is among the last `cap` numbers reported.
abbrev pub report : ℕ → List Disclosure → Disclosure → List Disclosure
report cap reported d =
    if member d.rcept_no (last cap (numbers reported)) then reported else reported ++ d ∷ []

abbrev Distinct : List Bytes → Type 0
Distinct [] = Unit
Distinct (x ∷ xs) = (member x xs ≡ false) × Distinct xs

pub record Tracks (cap : ℕ) (s : Seen) (reported : List Disclosure) : Type 0 where
  pub order_eq : s.order ≡ last cap (numbers reported)
  pub seen_eq : (k : Bytes) → member k s.seen ≡ member k s.order
  pub distinct : Distinct s.order

drop_nil : (n : ℕ) → drop {A = Bytes} n [] ≡ []
drop_nil zero = refl
drop_nil (suc n) = refl

start-Tracks : (cap : ℕ) → Tracks cap start []
start-Tracks cap = record {
  order_eq = sym (drop_nil (0 - cap));
  seen_eq = λ k. refl;
  distinct = tt;
}

member-append :
    (k : Bytes) (xs ys : List Bytes) → member k (xs ++ ys) ≡ (member k xs || member k ys)
member-append k [] ys = refl
member-append k (x ∷ xs) ys = ground (arith, member-append k xs ys)

member-erase :
    (k f : Bytes) (xs : List Bytes)
    → member k (erase f xs) ≡ (if bytes_eq f k then false else member k xs)
member-erase k f [] = ground arith
member-erase k f (x ∷ xs) =
    ground (arith, member-erase k f xs, bytes_eq_iff x f, bytes_eq_iff f k, bytes_eq_iff x k)

Distinct-snoc :
    (x : Bytes) (xs : List Bytes) → Distinct xs → member x xs ≡ false → Distinct (xs ++ x ∷ [])
Distinct-snoc x [] d h = (refl, tt)
Distinct-snoc x (y ∷ ys) (n, d) h = (
  rw (member-append y ys (x ∷ []), n) (ground (arith, bytes_eq_iff y x, bytes_eq_iff x y)),
  Distinct-snoc x ys d (ground arith),
)

drop-append :
    {A : Type 0} (n : ℕ) (xs ys : List A) → n ≤ length xs → drop n (xs ++ ys) ≡ drop n xs ++ ys
drop-append zero xs ys h = refl
drop-append (suc n) [] ys h = absurd (omega arith)
drop-append (suc n) (x ∷ xs) ys h = drop-append n xs ys (omega arith)

drop-suc : {A : Type 0} (n : ℕ) (xs ys : List A) (x : A) → drop n xs ≡ x ∷ ys → drop (suc n) xs ≡ ys
drop-suc zero [] ys x h = cc
drop-suc zero (z ∷ xs) ys x h = cc
drop-suc (suc n) [] ys x h = cc
drop-suc (suc n) (z ∷ xs) ys x h = drop-suc n xs ys x h

-- One more number: the window moves on by one, or grows.
last-snoc_room :
    (cap : ℕ) (xs : List Bytes) (x : Bytes)
    → length (last cap xs ++ x ∷ []) ≤ cap
    → last cap (xs ++ x ∷ []) ≡ last cap xs ++ x ∷ []
last-snoc_room cap xs x h =
    ap (λ n. drop n (xs ++ x ∷ []))
      (omega (
        arith,
        length-append xs (x ∷ []),
        length-append (last cap xs) (x ∷ []),
        length-drop (length xs - cap) xs,
      ))
    ∙ drop-append (length xs - cap) xs (x ∷ []) (omega arith)

last-snoc_full :
    (cap : ℕ) (xs : List Bytes) (x front : Bytes) (rest : List Bytes)
    → cap < length (last cap xs ++ x ∷ [])
    → last cap xs ++ x ∷ [] ≡ front ∷ rest
    → last cap (xs ++ x ∷ []) ≡ rest
last-snoc_full cap xs x front rest h e =
    let moved : length (xs ++ x ∷ []) - cap ≡ suc (length xs - cap) = omega (
      arith,
      length-append xs (x ∷ []),
      length-append (last cap xs) (x ∷ []),
      length-drop (length xs - cap) xs,
    ) in
    ap (λ n. drop n (xs ++ x ∷ [])) moved
    ∙ drop-suc (length xs - cap) (xs ++ x ∷ []) rest front
        (drop-append (length xs - cap) xs (x ∷ []) (omega arith) ∙ e)

evict_members :
    (seen order : List Bytes) (f : Bytes)
    → ((k : Bytes) → member k seen ≡ member k (f ∷ order))
    → member f order ≡ false
    → (k : Bytes) → member k (erase f seen) ≡ member k order
evict_members seen order f h n k = elim (Bool-cases (bytes_eq f k)) [
  | inl t ↦ rw (member-erase k f seen, t) (ground (arith, bytes_eq_iff f k))
  | inr e ↦ rw (member-erase k f seen, e, h k, e) refl
]

module _ {cap : ℕ} {s : Seen} {reported : List Disclosure} (t : Tracks cap s reported)
    (d : Disclosure) where
  grown_order : s.order ++ d.rcept_no ∷ [] ≡ last cap (numbers reported) ++ d.rcept_no ∷ []
  grown_order = ap (λ o. o ++ d.rcept_no ∷ []) t.order_eq

  numbers-snoc : numbers (reported ++ d ∷ []) ≡ numbers reported ++ d.rcept_no ∷ []
  numbers-snoc = map-append _ reported (d ∷ [])

  grown_members :
      (k : Bytes) → member k (d.rcept_no ∷ s.seen) ≡ member k (s.order ++ d.rcept_no ∷ [])
  grown_members k = rw (member-append k s.order (d.rcept_no ∷ []), t.seen_eq k) (ground arith)

  grown_room :
      length (s.order ++ d.rcept_no ∷ []) ≤ cap
      → member d.rcept_no s.seen ≡ false
      → Tracks cap
          (record { seen = d.rcept_no ∷ s.seen; order = s.order ++ d.rcept_no ∷ [] })
          (reported ++ d ∷ [])
  grown_room h n = record {
    order_eq =
        grown_order
        ∙ sym (last-snoc_room cap (numbers reported) d.rcept_no (rw grown_order at h))
        ∙ ap (last cap) (sym numbers-snoc);
    seen_eq = grown_members;
    distinct = Distinct-snoc d.rcept_no s.order t.distinct (sym (t.seen_eq d.rcept_no) ∙ n);
  }

  grown_full :
      (o : List Bytes)
      → s.order ++ d.rcept_no ∷ [] ≡ o
      → cap < length o
      → member d.rcept_no s.seen ≡ false
      → Tracks cap (evict (d.rcept_no ∷ s.seen) o) (reported ++ d ∷ [])
  grown_full [] e h n = absurd (omega arith)
  grown_full (f ∷ rest) e h n =
      let dist : Distinct (f ∷ rest) =
        subst Distinct e
          (Distinct-snoc d.rcept_no s.order t.distinct (sym (t.seen_eq d.rcept_no) ∙ n)) in
      record {
        order_eq =
            sym (
              last-snoc_full cap (numbers reported) d.rcept_no f rest
                (subst (λ l. cap < length l) (sym e ∙ grown_order) h) (sym grown_order ∙ e))
            ∙ ap (last cap) (sym numbers-snoc);
        seen_eq =
            evict_members (d.rcept_no ∷ s.seen) rest f (λ k. grown_members k ∙ ap (member k) e)
              dist.0;
        distinct = dist.1;
      }

  -- One disclosure is reported exactly if its number is not among the last `cap` numbers reported.
  poll_one-Tracks :
      Tracks cap (poll_one cap s d).0 (report cap reported d)
      × (report cap reported d ≡ (if (poll_one cap s d).1 then reported ++ d ∷ [] else reported))
  unfolding poll_one
  poll_one-Tracks = elim (Bool-cases (member d.rcept_no s.seen)) [
    | inl old ↦ rw (sym window ∙ old, old, report) (t, refl)
    | inr new ↦ elim (Bool-cases (ltb cap (length (s.order ++ d.rcept_no ∷ [])))) [
      | inl full ↦
          rw (sym window ∙ new, new, full, report)
            (grown_full (s.order ++ d.rcept_no ∷ []) refl (ltb→lt _ _ full) new, refl)
      | inr room ↦ rw (sym window ∙ new, new, room, report) (grown_room (ground arith) new, refl)
    ]
  ]
    where
      window : member d.rcept_no s.seen ≡ member d.rcept_no (last cap (numbers reported))
      window = t.seen_eq d.rcept_no ∙ ap (member d.rcept_no) t.order_eq

abbrev pub report_all : ℕ → List Disclosure → List Disclosure → List Disclosure
report_all cap reported [] = reported
report_all cap reported (d ∷ ds) = report_all cap (report cap reported d) ds

-- All that the pages list, in order.
abbrev pub listed : List (List Disclosure) → List Disclosure
listed [] = []
listed (page ∷ pages) = page ++ listed pages

report_all-append :
    (cap : ℕ) (reported ds es : List Disclosure)
    → report_all cap reported (ds ++ es) ≡ report_all cap (report_all cap reported ds) es
report_all-append cap reported [] es = refl
report_all-append cap reported (d ∷ ds) es = report_all-append cap (report cap reported d) ds es

cons_if :
    (b : Bool) (rep out : List Disclosure) (d : Disclosure)
    → (if b then rep ++ d ∷ [] else rep) ++ out ≡ rep ++ (if b then d ∷ out else out)
cons_if true rep out d = append_assoc rep (d ∷ []) out
cons_if false rep out d = refl

poll_page_lem :
    (cap : ℕ) (s : Seen) (reported ds : List Disclosure)
    → Tracks cap s reported
    → Tracks cap (poll_page cap s ds).0 (report_all cap reported ds)
      × (report_all cap reported ds ≡ reported ++ (poll_page cap s ds).1)
unfolding poll_page
poll_page_lem cap s reported [] t = (t, sym (append-nil reported))
poll_page_lem cap s reported (d ∷ ds) t =
    let (t1, e1) = poll_one-Tracks t d in
    let (s1, b) = poll_one cap s d in
    let (t2, e2) = poll_page_lem cap s1 (report cap reported d) ds t1 in
    (
      t2,
      e2 ∙ ap (λ r. r ++ (poll_page cap s1 ds).1) e1 ∙ cons_if b reported (poll_page cap s1 ds).1 d,
    )

poll_loop_lem :
    (cap : ℕ) (s : Seen) (reported : List Disclosure) (pages : List (List Disclosure))
    → Tracks cap s reported
    → Tracks cap (poll_loop cap s pages).0 (report_all cap reported (listed pages))
      × (report_all cap reported (listed pages) ≡ reported ++ (poll_loop cap s pages).1)
unfolding poll_loop
poll_loop_lem cap s reported [] t = (t, sym (append-nil reported))
poll_loop_lem cap s reported (page ∷ pages) t =
    let (t1, e1) = poll_page_lem cap s reported page t in
    let (s1, out) = poll_page cap s page in
    let (t2, e2) = poll_loop_lem cap s1 (report_all cap reported page) pages t1 in
    let e = report_all-append cap reported page (listed pages) in
    (
      rw e t2,
      e
          ∙ e2
          ∙ ap (λ r. r ++ (poll_loop cap s1 pages).1) e1
          ∙ append_assoc reported out (poll_loop cap s1 pages).1,
    )

-- The loop hands on exactly the disclosures whose number is not among the last `cap` numbers handed
-- on before, in the order in which the pages list them; it never holds more than `cap` numbers.
pub poll_loop-eq-report :
    (cap : ℕ) (pages : List (List Disclosure))
    → ((poll_loop cap start pages).1 ≡ report_all cap [] (listed pages))
      × (length (poll_loop cap start pages).0.order ≤ cap)
poll_loop-eq-report cap pages =
    let (t, e) = poll_loop_lem cap start [] pages (start-Tracks cap) in
    let xs = numbers (report_all cap [] (listed pages)) in
    (sym e, rw t.order_eq (omega (arith, length-drop (length xs - cap) xs)))
