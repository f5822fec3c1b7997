-- ===== src/Stock/Session/Change.antt =====
-- Does the state change where `time_until_next` says (modules/stock-feed/src/krx_session.cpp)?
use lemuel_quant_core.Base.{
  ℕ, ◌+◌, ◌-◌, ◌*◌, ◌/◌, ◌%◌, ◌≤◌, ◌<◌, ◌≡◌, refl, ◌≢◌, ◌⊎◌, ◌∙◌, sym, ap, true, false, arith, inl,
  inr, Bool-cases, leb,
}
use lemuel_quant_core.Stock.Session.{closed, kst_seconds, is_market_day, state_at, time_until_next}
use lemuel_quant_core.Stock.Session.Next.{
  window, next, minute, weekday, state_of, state_at-eq-state_of, time_until_next_lem, window_keep,
  window_out, window_early, next_far, next_bound, weekday_keep, same_day, far_day,
}

is_market_day-eq-weekday : (t : ℕ) → is_market_day t ≡ weekday (kst_seconds t)
unfolding is_market_day
is_market_day-eq-weekday t = ground arith

closed_at : (n : ℕ) → window (minute n) ≡ closed → state_of n ≡ closed
closed_at n h = ground arith

-- Seconds before the boundary have the state of the first one.
state_keep :
    (n k : ℕ) → n ≤ k → k < n + (60 * next (minute n) - n % 86_400) → state_of k ≡ state_of n
state_keep n k l h = elim (Bool-cases (leb (next (minute n)) 1440)) [
  | inl near ↦
      let (days, up, below, short) = same_day n k (next (minute n)) l h (before n) (ground arith) in
      rw (weekday_keep n k days, window_keep (minute n) (minute k) up below short) refl
  | inr far ↦
      let late = next_far (minute n) (ground arith) in far_case late (far_day n k l (widen h) late)
]
  where
    before : (n : ℕ) → n % 86_400 < 60 * next (minute n)
    before n = omega (arith, (next_bound (minute n)).1 (omega arith))

    widen : k < n + (60 * next (minute n) - n % 86_400) → k < n + (60 * 1950 - n % 86_400)
    widen h = omega (arith, (next_bound (minute n)).0)

    far_case : 1080 ≤ minute n → (1080 ≤ minute k) ⊎ (minute k < 510) → state_of k ≡ state_of n
    far_case late (inl a) =
        closed_at k (window_out (minute k) a) ∙ sym (closed_at n (window_out (minute n) late))
    far_case late (inr a) =
        closed_at k (window_early (minute k) a) ∙ sym (closed_at n (window_out (minute n) late))

-- The session state never changes before the time that `time_until_next` gives has passed: at every
-- later time whose second lies before that one, on every day of the week, the state is the same.
pub time_until_next_keep :
    (t u : ℕ)
    → t ≤ u
    → 1000 * kst_seconds u < 1000 * kst_seconds t + time_until_next t
    → state_at u ≡ state_at t
time_until_next_keep t u l h =
    rw (state_at-eq-state_of t, state_at-eq-state_of u)
      (state_keep (kst_seconds t) (kst_seconds u) (omega arith)
        (omega (arith, time_until_next_lem t)))

-- The time of the next boundary.
abbrev pub then_at : ℕ → ℕ
then_at t = t + 1_000_000 * time_until_next t

boundary_second :
    (t d b : ℕ)
    → d + 1000 * (kst_seconds t % 86_400) ≡ 60_000 * b
    → b ≤ 1080
    → (kst_seconds t / 86_400 ≡ kst_seconds (t + 1_000_000 * d) / 86_400)
      × (kst_seconds (t + 1_000_000 * d) % 86_400 ≡ 60 * b)
boundary_second t d b h k = omega arith

window_change : (m : ℕ) → m < 1080 → (next m ≤ 1080) × (window (next m) ≢ window m)
window_change m h = ground arith

before_close :
    (t : ℕ)
    → minute (kst_seconds t) < 1080
    → (weekday (kst_seconds (then_at t)) ≡ weekday (kst_seconds t))
      × (kst_seconds (then_at t) % 86_400 ≡ 60 * next (minute (kst_seconds t)))
before_close t h =
    let (days, at) =
      boundary_second t (time_until_next t) (next (minute (kst_seconds t))) (time_until_next_lem t)
        (window_change _ h).0 in
    (weekday_keep (kst_seconds t) (kst_seconds (then_at t)) days, at)

state_weekday : (n : ℕ) → weekday n ≡ true → state_of n ≡ window (minute n)
state_weekday n h = rw h refl

state_weekend : (n : ℕ) → weekday n ≡ false → state_of n ≡ closed
state_weekend n h = rw h refl

-- On a market day before 18:00 the state does change when that time has passed, and the change is at
-- the full minute.
pub time_until_next_change :
    (t : ℕ)
    → is_market_day t ≡ true
    → minute (kst_seconds t) < 1080
    → (state_at (then_at t) ≢ state_at t) × (kst_seconds (then_at t) % 60 ≡ 0)
time_until_next_change t d h =
    let n = kst_seconds t in
    let (days, at) = before_close t h in
    let (near, changes) = window_change (minute n) h in
    let wd : weekday n ≡ true = sym (is_market_day-eq-weekday t) ∙ d in
    let there : minute (kst_seconds (then_at t)) ≡ next (minute n) = omega arith in
    (
      λ e. changes (
          sym (state_weekday (kst_seconds (then_at t)) (days ∙ wd) ∙ ap window there)
          ∙ sym (state_at-eq-state_of (then_at t))
          ∙ e
          ∙ state_at-eq-state_of t
          ∙ state_weekday n wd),
      omega arith,
    )

-- On a Saturday or a Sunday before 18:00 the state does not change when that time has passed: the
-- market is closed before and after.
time_until_next_weekend :
    (t : ℕ)
    → is_market_day t ≡ false
    → minute (kst_seconds t) < 1080
    → (state_at t ≡ closed) × (state_at (then_at t) ≡ closed)
time_until_next_weekend t d h =
    let wd : weekday (kst_seconds t) ≡ false = sym (is_market_day-eq-weekday t) ∙ d in
    (
      state_at-eq-state_of t ∙ state_weekend (kst_seconds t) wd,
      state_at-eq-state_of (then_at t)
          ∙ state_weekend (kst_seconds (then_at t)) ((before_close t h).0 ∙ wd),
    )
