-- ===== src/Stock/Session/Next.antt =====
-- `time_until_next` against `state_at` (modules/stock-feed/src/krx_session.cpp).
use lemuel_quant_core.Base.{
  ℕ, ◌+◌, ◌-◌, ◌*◌, ◌/◌, ◌%◌, ◌≤◌, ◌<◌, ◌≡◌, refl, ◌⊎◌, Bool, not, ◌&&◌, ◌||◌, arith, ltb, leb,
  ◌==◌, if◌then◌else◌,
}
use lemuel_quant_core.Stock.Session.{
  State, closed, pre_open, regular, closing, after_hours, kst_seconds, state_at, time_until_next,
  until_boundary, boundaries,
}

-- The state of a market day by its minute.
abbrev pub window : ℕ → State
window m =
    if ltb m 510
    then closed
    else if ltb m 540
    then pre_open
    else if ltb m 920
    then regular
    else if ltb m 930
    then closing
    else if ltb m 940
    then closed
    else if ltb m 1080
    then after_hours
    else closed

-- The next boundary behind a minute; 08:30 of the next day is minute 1950.
abbrev pub next : ℕ → ℕ
next m =
    if ltb m 510
    then 510
    else if ltb m 540
    then 540
    else if ltb m 920
    then 920
    else if ltb m 930
    then 930
    else if ltb m 940
    then 940
    else if ltb m 1080
    then 1080
    else 1950

-- Of a second of Korean time: its minute of the day, and whether its day is a weekday.
abbrev pub minute : ℕ → ℕ
minute n = n % 86_400 / 60

abbrev pub weekday : ℕ → Bool
weekday n = let w = (n / 86_400 + 4) % 7 in not (w == 0 || w == 6)

abbrev pub state_of : ℕ → State
state_of n = if weekday n then window (minute n) else closed

minute_lem : (n : ℕ) → n % 86_400 / 3600 * 60 + n % 3600 / 60 ≡ minute n
minute_lem n = omega arith

window_lem :
    (m : ℕ)
    → (if leb 510 m && ltb m 540
        then pre_open
        else if leb 540 m && ltb m 920
        then regular
        else if leb 920 m && ltb m 930
        then closing
        else if leb 940 m && ltb m 1080
        then after_hours
        else closed)
      ≡ window m
window_lem m = ground arith

pub state_at-eq-state_of : (t : ℕ) → state_at t ≡ state_of (kst_seconds t)
unfolding state_at
state_at-eq-state_of t =
    let n = kst_seconds t in rw (minute_lem n, window_lem (minute n)) (ground arith)

until_boundary_lem :
    (m s : ℕ)
    → m < 1440
    → s < 60
    → until_boundary boundaries m s + 60_000 * m + 1000 * s ≡ 60_000 * next m
until_boundary_lem m s h k = ground arith

add_up :
    (d n b : ℕ)
    → d + 60_000 * minute n + 1000 * (n % 60) ≡ 60_000 * b
    → d + 1000 * (n % 86_400) ≡ 60_000 * b
add_up d n b h = omega arith

-- In seconds: from a second of the day up to the next boundary.
pub time_until_next_lem :
    (t : ℕ)
    → let n = kst_seconds t in time_until_next t + 1000 * (n % 86_400) ≡ 60_000 * next (minute n)
unfolding time_until_next
time_until_next_lem t =
    let n = kst_seconds t in
    let e = until_boundary_lem (minute n) (n % 60) (omega arith) (omega arith) in
    rw (minute_lem n) (add_up (until_boundary boundaries (minute n) (n % 60)) n (next (minute n)) e)

pub window_keep : (m k : ℕ) → m ≤ k → k < next m → k < 1440 → window k ≡ window m
window_keep m k h l d = ground arith

pub window_out : (m : ℕ) → 1080 ≤ m → window m ≡ closed
window_out m h = ground arith

pub window_early : (m : ℕ) → m < 510 → window m ≡ closed
window_early m h = ground arith

pub next_far : (m : ℕ) → 1440 < next m → 1080 ≤ m
next_far m h = ground arith

pub next_bound : (m : ℕ) → (next m ≤ 1950) × (m < 1950 → m < next m)
next_bound m = ground arith

-- Seconds of one day have one weekday.
pub weekday_keep : (n k : ℕ) → n / 86_400 ≡ k / 86_400 → weekday k ≡ weekday n
weekday_keep n k h = rw h refl

-- A second before the boundary is on the same day, at an earlier minute than the boundary, or early on the next day.
pub same_day :
    (n k b : ℕ)
    → n ≤ k
    → k < n + (60 * b - n % 86_400)
    → n % 86_400 < 60 * b
    → b ≤ 1440
    → (n / 86_400 ≡ k / 86_400) × (minute n ≤ minute k) × (minute k < b) × (minute k < 1440)
same_day n k b l h p q = omega arith

pub far_day :
    (n k : ℕ)
    → n ≤ k
    → k < n + (60 * 1950 - n % 86_400)
    → 1080 ≤ minute n
    → (1080 ≤ minute k) ⊎ (minute k < 510)
far_day n k l h p = omega arith
