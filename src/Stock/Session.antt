-- ===== src/Stock/Session.antt =====
-- The KRX session clock, modules/stock-feed/src/krx_session.cpp. A time point is the number of
-- nanoseconds since the epoch; `to_time_t` and `gmtime_r` are written out for such times.
pub mod Next
pub mod Change
use lemuel_quant_core.Base.{
  ℕ, ◌+◌, ◌-◌, ◌*◌, ◌/◌, ◌%◌, Bool, true, false, not, ◌&&◌, ◌||◌, List, [], ◌∷◌, ltb, leb, ◌==◌,
  if◌then◌else◌,
}
use lemuel_quant_core.Base.Bytes.{Bytes, lit}

pub record KstClock : Type 0 where
  pub year : ℕ
  pub mon : ℕ
  pub day : ℕ
  pub wday : ℕ
  pub h : ℕ
  pub m : ℕ
  pub s : ℕ

-- The civil date of a day number, by eras of 400 years that begin on the first of March.
abbrev era_day : ℕ → ℕ
era_day days = (days + 719_468) % 146_097

abbrev era_year : ℕ → ℕ
era_year days = let doe = era_day days in (doe - doe / 1460 + doe / 36_524 - doe / 146_096) / 365

abbrev year_day : ℕ → ℕ
year_day days = let yoe = era_year days in era_day days - (365 * yoe + yoe / 4 - yoe / 100)

abbrev civil_day : ℕ → ℕ
civil_day days = let mp = (5 * year_day days + 2) / 153 in year_day days - (153 * mp + 2) / 5 + 1

abbrev civil_month : ℕ → ℕ
civil_month days = let mp = (5 * year_day days + 2) / 153 in if ltb mp 10 then mp + 3 else mp - 9

abbrev civil_year : ℕ → ℕ
civil_year days =
    era_year days + (days + 719_468) / 146_097 * 400 + (if leb (civil_month days) 2 then 1 else 0)

-- `to_time_t(t) + 9 * 3600`.
abbrev pub kst_seconds : ℕ → ℕ
kst_seconds t = t / 1_000_000_000 + 9 * 3600

unfoldable to_kst : ℕ → KstClock
to_kst t =
    let n = kst_seconds t in
    let days = n / 86_400 in
    record {
      year = civil_year days;
      mon = civil_month days;
      day = civil_day days;
      wday = (days + 4) % 7;
      h = n % 86_400 / 3600;
      m = n % 3600 / 60;
      s = n % 60;
    }

abbrev minutes_of_day : KstClock → ℕ
minutes_of_day k = k.h * 60 + k.m

pub data State : Type 0 where
  closed pre_open regular closing after_hours : State

unfoldable pub is_market_day : ℕ → Bool
unfolding to_kst
is_market_day t = let k = to_kst t in if k.wday == 0 || k.wday == 6 then false else true

unfoldable pub state_at : ℕ → State
unfolding is_market_day
state_at t =
    let m = minutes_of_day (to_kst t) in
    if not (is_market_day t)
    then closed
    else if leb (8 * 60 + 30) m && ltb m (9 * 60)
    then pre_open
    else if leb (9 * 60) m && ltb m (15 * 60 + 20)
    then regular
    else if leb (15 * 60 + 20) m && ltb m (15 * 60 + 30)
    then closing
    else if leb (15 * 60 + 40) m && ltb m (18 * 60)
    then after_hours
    else closed

abbrev pub boundaries : List ℕ
boundaries =
    (8 * 60 + 30) ∷ (9 * 60) ∷ (15 * 60 + 20) ∷ (15 * 60 + 30) ∷ (15 * 60 + 40) ∷ (18 * 60) ∷ []

-- The loop over the boundaries, with what follows it.
abbrev pub until_boundary : List ℕ → ℕ → ℕ → ℕ
until_boundary [] now_min s = (24 * 60 - now_min + (8 * 60 + 30)) * 60_000 - s * 1000
until_boundary (b ∷ bs) now_min s =
    if ltb now_min b then (b - now_min) * 60_000 - s * 1000 else until_boundary bs now_min s

-- In milliseconds.
unfoldable pub time_until_next : ℕ → ℕ
unfolding to_kst
time_until_next t = let k = to_kst t in until_boundary boundaries (minutes_of_day k) k.s

unfoldable pub to_string : State → Bytes
to_string closed = lit "CLOSED"
to_string pre_open = lit "PREOPEN"
to_string regular = lit "REGULAR"
to_string closing = lit "CLOSING"
to_string after_hours = lit "AFTERHOURS"
