-- ===== src/Calendar.antt =====
-- Go's package `time`, in UTC, as far as the billing periods use it: the calendar month that
-- AddDate(0, 1, 0) adds, and Before and After. Models internal/services/api_usage_service.go and
-- internal/repository/api_usage_repository.go together with `Usage`.
pub mod Months
use landmark_api.Common.{
  ℕ, suc, ◌+◌, ◌-◌, ◌*◌, ◌%◌, ◌≤◌, ◌<◌, ◌≡◌, Bool, ◌&&◌, ◌||◌, not, eqb, ltb, leb, if◌then◌else◌,
}

pub record Time : Type 0 where
  pub year : ℕ
  pub month : ℕ
  pub day : ℕ
  -- Nanoseconds since midnight.
  pub nanos : ℕ

abbrev pub day_nanos : ℕ
day_nanos = 86_400_000_000_000

unfoldable pub is_leap : ℕ → Bool
is_leap y = eqb (y % 4) 0 && (not (eqb (y % 100) 0) || eqb (y % 400) 0)

unfoldable pub days_in : ℕ → ℕ → ℕ
unfolding is_leap
days_in y m =
    if eqb m 2
    then if is_leap y then 29 else 28
    else if eqb m 4 || (eqb m 6 || (eqb m 9 || eqb m 11))
    then 30
    else 31

-- The zero value of time.Time, and IsZero.
abbrev pub zero_time : Time
zero_time = record { year = 1; month = 1; day = 1; nanos = 0 }

-- A number that orders times as they follow one another.
unfoldable pub stamp : Time → ℕ
stamp t = ((t.year * 12 + t.month) * 32 + t.day) * day_nanos + t.nanos

abbrev pub before : Time → Time → Bool
before t u = ltb (stamp t) (stamp u)

abbrev pub after : Time → Time → Bool
after t u = before u t

unfoldable pub is_zero : Time → Bool
unfolding stamp
is_zero t = eqb (stamp t) (stamp zero_time)

unfoldable pub next_month : Time → Time
next_month t =
    if eqb t.month 12
    then record t { year = t.year + 1; month = 1 }
    else record t { month = t.month + 1 }

-- t.AddDate(0, 1, 0): the same day of the next month; a day past that month's end goes on into the
-- month after it.
unfoldable pub add_month : Time → Time
unfolding next_month days_in
add_month t =
    let u = next_month t in
    if leb t.day (days_in u.year u.month)
    then u
    else (let v = next_month u in record v { day = t.day - days_in u.year u.month })

unfoldable pub previous_month : Time → Time
previous_month t =
    if eqb t.month 1
    then record t { year = t.year - 1; month = 12 }
    else record t { month = t.month - 1 }

-- t.AddDate(0, -1, 0): as add_month, for the month before.
unfoldable pub sub_month : Time → Time
unfolding previous_month next_month days_in
sub_month t =
    let u = previous_month t in
    if leb t.day (days_in u.year u.month)
    then u
    else (let v = next_month u in record v { day = t.day - days_in u.year u.month })

unfoldable pub previous_day : Time → Time
unfolding previous_month days_in
previous_day t =
    if ltb 1 t.day
    then record t { day = t.day - 1 }
    else (let u = previous_month t in record u { day = days_in u.year u.month })

abbrev half_day : ℕ
half_day = 43_200_000_000_000

-- t.Add(-12 * time.Hour), for a time after the year 1 begins.
unfoldable pub twelve_hours_before : Time → Time
unfolding previous_day
twelve_hours_before t =
    if leb half_day t.nanos
    then record t { nanos = t.nanos - half_day }
    else (let u = previous_day t in record u { nanos = t.nanos + half_day })

-- A date of the calendar, with a time of day.
pub record IsDate (t : Time) : Type 0 where
  pub month_pos : 1 ≤ t.month
  pub month_le : t.month ≤ 12
  pub day_pos : 1 ≤ t.day
  pub day_le : t.day ≤ days_in t.year t.month
  pub nanos_lt : t.nanos < day_nanos
