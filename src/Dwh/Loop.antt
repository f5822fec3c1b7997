-- ===== src/Dwh/Loop.antt =====
-- The loop of `main` with its windows, between the rows that the subscriber appends
-- (modules/data-warehouse/src/main.cpp), as a sequence of events; the pauses are left out.
use lemuel_quant_core.Base.{
  ℕ, suc, ◌+◌, ◌≤◌, ◌<◌, ◌≡◌, refl, ap, ◌∙◌, sym, Bool, true, false, Bool-cases, inl, inr, List, [],
  ◌∷◌, ◌++◌, arith, if◌then◌else◌,
}
use lemuel_quant_core.Base.Bytes.{Bytes, lit, bytes_eq}
use lemuel_quant_core.Base.Maps.{list_at, list_at-push_at}
use lemuel_quant_core.Dwh.{Row}
use lemuel_quant_core.Dwh.Store.{append, query, keep, is_within}
use lemuel_quant_core.Dwh.Rollup.{rollup_once, collect, channels}
use lemuel_quant_core.Dwh.Store.Arrivals.{count, count-append}

-- A row is appended, or the interval is over at a time; `true` for a rollup that throws.
pub data Event {ℓ} (D : Type ℓ) : Type ℓ where
  appended : Row D → Event D
  tick : ℕ → Bool → Event D

-- The store, `last_until`, and the rows of each rollup so far.
pub record Warehouse {ℓ} (D : Type ℓ) : Type ℓ where
  pub store : List (Bytes × List (Row D))
  pub last_until : ℕ
  pub files : List (List (Row D))

module _ {ℓ} {D : Type ℓ} (sort : List (Row D) → List (Row D)) where
  unfoldable on_event : Event D → Warehouse D → Warehouse D
  unfolding append rollup_once
  on_event (appended r) w = record {
    store = append r w.store;
    last_until = w.last_until;
    files = w.files;
  }
  on_event (tick until thrown) w = record {
    store = w.store;
    last_until = until;
    files = if thrown then w.files else w.files ++ rollup_once sort w.store w.last_until until ∷ [];
  }

  unfoldable pub run_loop : List (Event D) → Warehouse D → Warehouse D
  unfolding on_event
  run_loop [] w = w
  run_loop (e ∷ events) w = run_loop events (on_event e w)

-- The times of the ticks do not run backwards.
abbrev Forward {ℓ} : {D : Type ℓ} → ℕ → List (Event D) → Type 0
Forward last [] = Unit
Forward last (appended r ∷ events) = Forward last events
Forward last (tick until thrown ∷ events) = (last ≤ until) × Forward until events

module _ {ℓ} {D : Type ℓ} (p : Row D → Bool) where
  -- How many written rows pass a test.
  abbrev pub count_files : List (List (Row D)) → ℕ
  count_files [] = 0
  count_files (rows ∷ files) = count p rows + count_files files

  count_files-snoc :
      (files : List (List (Row D))) (rows : List (Row D))
      → count_files (files ++ rows ∷ []) ≡ count_files files + count p rows
  count_files-snoc [] rows = omega arith
  count_files-snoc (f ∷ files) rows = omega (arith, count_files-snoc files rows)

  count-before :
      (since until : ℕ) (rows : List (Row D))
      → ((r : Row D) → p r ≡ true → r.ts_ns < since)
      → count p (keep (is_within since until) rows) ≡ 0
  count-before since until [] h = refl
  count-before since until (r ∷ rows) h = elim (Bool-cases (p r)) [
    | inl t ↦ ground (arith, h r t, count-before since until rows h)
    | inr f ↦ ground (arith, count-before since until rows h)
  ]

module _ {ℓ} {D : Type ℓ} (sort : List (Row D) → List (Row D))
    (keeps : (p : Row D → Bool) (rows : List (Row D)) → count p (sort rows) ≡ count p rows) where
  collect-before :
      (p : Row D → Bool) (m : List (Bytes × List (Row D))) (since until : ℕ) (chs : List Bytes)
      → ((r : Row D) → p r ≡ true → r.ts_ns < since)
      → count p (collect sort m chs since until) ≡ 0
  unfolding query
  collect-before p m since until [] h = refl
  collect-before p m since until (c ∷ chs) h = omega (
    arith,
    count-append p (query sort m c since until) (collect sort m chs since until),
    keeps p (keep (is_within since until) (list_at c m)),
    count-before p since until (list_at c m) h,
    collect-before p m since until chs h,
  )

  -- If the sort neither loses nor repeats rows and time does not run backwards, rows that are stamped
  -- before the bound of the last rollup are never written again, whenever they are appended: no later
  -- file has one of them.
  pub run_loop-behind :
      (p : Row D → Bool) (events : List (Event D)) (w : Warehouse D)
      → ((r : Row D) → p r ≡ true → r.ts_ns < w.last_until)
      → Forward w.last_until events
      → count_files p (run_loop sort events w).files ≡ count_files p w.files
  unfolding run_loop
  run_loop-behind p [] w h f = refl
  run_loop-behind p (appended r ∷ events) w h f =
      run_loop-behind p events (on_event sort (appended r) w) h f
  run_loop-behind p (tick until thrown ∷ events) w h (le, f) =
      run_loop-behind p events (on_event sort (tick until thrown) w) (λ r t. omega (arith, h r t)) f
      ∙ elim (Bool-cases thrown) [
        | inl t ↦ rw t refl
        | inr g ↦ rw g (
            omega (
              arith,
              count_files-snoc p w.files (rollup_once sort w.store w.last_until until),
              collect-before p w.store w.last_until until channels h,
            ))
      ]

  count-query :
      (p : Row D → Bool) (r : Row D) (m : List (Bytes × List (Row D))) (since until : ℕ) (c : Bytes)
      → p r ≡ true
      → is_within since until r ≡ true
      → count p (query sort (append r m) c since until)
        ≡ count p (query sort m c since until) + (if bytes_eq r.channel c then 1 else 0)
  unfolding query append
  count-query p r m since until c h inside =
      keeps p (keep (is_within since until) (list_at c (append r m)))
      ∙ ap (λ l. count p (keep (is_within since until) l)) (list_at-push_at c r.channel r m)
      ∙ count_more (list_at c m) (bytes_eq r.channel c)
      ∙ ap (λ n. n + (if bytes_eq r.channel c then 1 else 0))
          (sym (keeps p (keep (is_within since until) (list_at c m))))
    where
      count_more :
          (l : List (Row D)) (b : Bool)
          → count p (keep (is_within since until) (l ++ (if b then r ∷ [] else [])))
            ≡ count p (keep (is_within since until) l) + (if b then 1 else 0)
      count_more [] b = ground arith
      count_more (q ∷ l) b = ground (arith, count_more l b)

  -- How often a channel is in a list of channels.
  abbrev matches : Bytes → List Bytes → ℕ
  matches key [] = 0
  matches key (c ∷ chs) = (if bytes_eq key c then 1 else 0) + matches key chs

  count-collect :
      (p : Row D → Bool) (r : Row D) (m : List (Bytes × List (Row D))) (since until : ℕ)
      (chs : List Bytes)
      → p r ≡ true
      → is_within since until r ≡ true
      → count p (collect sort (append r m) chs since until)
        ≡ count p (collect sort m chs since until) + matches r.channel chs
  count-collect p r m since until [] h inside = omega arith
  count-collect p r m since until (c ∷ chs) h inside = omega (
    arith,
    count-query p r m since until c h inside,
    count-collect p r m since until chs h inside,
    count-append p (query sort (append r m) c since until)
        (collect sort (append r m) chs since until),
    count-append p (query sort m c since until) (collect sort m chs since until),
  )

  -- If the sort neither loses nor repeats rows: a trade that is appended with a stamp from the window of
  -- the next rollup is in its file exactly once more than without it, unless that rollup throws.
  pub run_loop-tick :
      (p : Row D → Bool) (r : Row D) (until : ℕ) (w : Warehouse D)
      → p r ≡ true
      → r.channel ≡ lit "trade"
      → w.last_until ≤ r.ts_ns
      → r.ts_ns ≤ until
      → count_files p (run_loop sort (appended r ∷ tick until false ∷ []) w).files
        ≡ suc (count_files p (run_loop sort (tick until false ∷ []) w).files)
  unfolding run_loop
  run_loop-tick p r until w h trade low high =
      let inside : is_within w.last_until until r ≡ true = ground arith in
      let m = w.store in
      let now = w.last_until in
      let once : matches r.channel channels ≡ 1 = rw trade refl in
      omega (
        arith,
        count_files-snoc p w.files (collect sort (append r m) channels now until),
        count_files-snoc p w.files (collect sort m channels now until),
        count-collect p r m now until channels h inside,
        once,
      )
