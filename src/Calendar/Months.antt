-- ===== src/Calendar/Months.antt =====
-- The order of dates and the addition of a month.
use landmark_api.Common.{
  Bool, true, false, refl, leb, if◌then◌else◌, ◌-◌, ℕ, ◌+◌, ◌*◌, ◌≤◌, ◌<◌, ◌≡◌, arith,
}
use landmark_api.Calendar.{Time, IsDate, days_in, stamp, add_month, next_month}

-- Months counted through the years.
abbrev pub months : Time → ℕ
months t = t.year * 12 + t.month

days_in_bounds : (y m : ℕ) → (28 ≤ days_in y m) × (days_in y m ≤ 31)
unfolding days_in
days_in_bounds y m = ground arith

-- What the next month has of a date before its day is looked at.
record IsNext (t u : Time) : Type 0 where
  pub month_pos : 1 ≤ u.month
  pub month_le : u.month ≤ 12
  pub same_day : u.day ≡ t.day
  pub same_nanos : u.nanos ≡ t.nanos

IsNext-next_month : (t : Time) → t.month ≤ 12 → IsNext t (next_month t)
unfolding next_month
IsNext-next_month t h = ground arith

clip :
    (t u v : Time)
    → IsDate t
    → IsNext t u
    → IsNext u v
    → (b : Bool) → leb t.day (days_in u.year u.month) ≡ b
    → IsDate (if b then u else (record v { day = t.day - days_in u.year u.month }))
clip t u v d n k true h = record {
  month_pos = n.month_pos;
  month_le = n.month_le;
  day_pos = omega arith;
  day_le = ground arith;
  nanos_lt = omega arith;
}
clip t u v d n k false h =
    let low = days_in_bounds u.year u.month in
    let high = days_in_bounds t.year t.month in
    let room = days_in_bounds v.year v.month in
    let over : days_in u.year u.month < t.day = ground arith in
    record {
      month_pos = k.month_pos;
      month_le = k.month_le;
      day_pos = omega arith;
      day_le = omega arith;
      nanos_lt = omega arith;
    }

-- The date that AddDate(0, 1, 0) gives is in the calendar again.
pub add_month-IsDate : (t : Time) → IsDate t → IsDate (add_month t)
unfolding add_month
add_month-IsDate t d =
    let n = IsNext-next_month t d.month_le in
    clip t (next_month t) (next_month (next_month t)) d n
      (IsNext-next_month (next_month t) n.month_le) _ refl

-- It moves on by at least a month of the calendar.
pub months-add_month : (t : Time) → IsDate t → months t + 1 ≤ months (add_month t)
unfolding add_month next_month
months-add_month t d = ground arith

-- Dates are ordered by their months first.
pub stamp-lt_of_months :
    (t u : Time) → IsDate t → IsDate u → months t < months u → stamp t < stamp u
unfolding stamp
stamp-lt_of_months t u d e h =
    omega (arith, days_in_bounds t.year t.month, days_in_bounds u.year u.month)
