-- ===== src/Logs/Sweeps.antt =====
-- The loop of cmd/api/main.go that deletes old logs, while requests are logged.
use landmark_api.Common.{
  ℕ, ◌+◌, ◌-◌, ◌*◌, ◌≤◌, ◌≡◌, true, false, filter, none, inl, inr, Result-cases, if◌then◌else◌, All,
  All-of, All-at, All-filter, filter-All, arith, List,
}
use mathlib.Core.Path.{subst}
use landmark_api.Calendar.{
  Time, IsDate, stamp, before, twelve_hours_before, previous_day, previous_month, days_in,
}
use landmark_api.Models.{RequestLog}
use landmark_api.Database.{Table, TableLaws}
use landmark_api.Logs.{create, delete_old_logs, sweep}
use landmark_api.Logs.Recording.{created}

-- A day in the year of a date, or at its end.
abbrev day_count : ℕ → ℕ → ℕ → ℕ
day_count year month day = (year * 12 + month) * 32 + day

days_in_le : (y m : ℕ) → days_in y m ≤ 31
unfolding days_in
days_in_le y m = ground arith

previous_day-lt :
    (t : Time)
    → IsDate t
    → 1 ≤ t.year
    → (day_count (previous_day t).year (previous_day t).month (previous_day t).day + 1
        ≤ day_count t.year t.month t.day)
unfolding previous_day previous_month
previous_day-lt t d h =
    let first = d.month_pos in
    let last = d.month_le in
    let begun = d.day_pos in
    let end_of_year = days_in_le (t.year - 1) 12 in
    let end_of_month = days_in_le t.year (t.month - 1) in
    ground (arith, first, last, begun, end_of_year, end_of_month)

half_day-le : (t : Time) → IsDate t → 1 ≤ t.year → stamp (twelve_hours_before t) ≤ stamp t
unfolding twelve_hours_before stamp
half_day-le t d h = let earlier = previous_day-lt t d h in ground (arith, earlier)

module _ {LS : Type 0} (logs : Table LS RequestLog) (laws : TableLaws logs) where
  -- What happens after `start`, at which the table is `s`: requests are logged, with the time at
  -- which this happens, and old logs are deleted, as time goes on.
  pub data History (start : Time) (s : LS) : Time → LS → Type 0 where
    begun : History start s start s
    logged :
        {t : Time} {s' : LS} (log : RequestLog)
        → History start s t s'
        → stamp start ≤ stamp log.timestamp
        → IsDate log.timestamp
        → 1 ≤ log.timestamp.year
        → History start s log.timestamp (create logs log s').1
    swept :
        {t : Time} {s' : LS} (now : Time)
        → History start s t s'
        → stamp start ≤ stamp now
        → History start s now (sweep logs now s')

  -- The log is of the last twelve hours before the time, or later.
  abbrev pub IsRecent : Time → RequestLog → Type 0
  IsRecent now log = stamp (twelve_hours_before now) ≤ stamp log.timestamp

  fresh_only :
      (now : Time) (rows : List RequestLog)
      → All
          (IsRecent now)
          (filter (λ r. if before r.timestamp (twelve_hours_before now) then false else true) rows)
  fresh_only now rows = All-of _ _ (λ log m. ground (arith, All-at _ _ log (filter-All _ rows) m))

  deleted_lem :
      (now : Time) (s s' : LS)
      → delete_old_logs logs now s ≡ (none, s')
      → All (IsRecent now) (logs.rows s')
  unfolding delete_old_logs
  deleted_lem now s s' done =
      elim (Result-cases (logs.delete s (λ log. before log.timestamp (twelve_hours_before now)))) [
        | inr (m, e) ↦ absurd (ground (arith, e))
        | inl ((s2, n), e) ↦
            let same : s2 ≡ s' = ground (arith, e) in
            let (rows, count) = laws.delete_rows s _ s2 n e in
            subst (λ x. All (IsRecent now) (logs.rows x)) same
              (rw rows (fresh_only now (logs.rows s)))
      ]

  swept-Recent :
      (start now : Time) (s : LS)
      → All (IsRecent start) (logs.rows s)
      → All (IsRecent start) (logs.rows (sweep logs now s))
  unfolding sweep delete_old_logs
  swept-Recent start now s h =
      elim (Result-cases (logs.delete s (λ log. before log.timestamp (twelve_hours_before now)))) [
        | inr (m, e) ↦ rw (e, sweep, delete_old_logs) h
        | inl ((s2, n), e) ↦
            let (rows, count) = laws.delete_rows s _ s2 n e in
            rw (e, sweep, delete_old_logs) (rw rows (All-filter _ _ _ h))
      ]

  kept :
      (start : Time) (s : LS) (t : Time) (s' : LS)
      → IsDate start
      → 1 ≤ start.year
      → All (IsRecent start) (logs.rows s)
      → History start s t s'
      → All (IsRecent start) (logs.rows s')
  kept start s t s' d y h begun = h
  kept start s t s' d y h (logged {t = t2} {s' = s2} log before_it later date year) =
      let rest = kept start s t2 s2 d y h before_it in
      elim (created logs laws log s2) [
        | inl (e, m, failing) ↦ rw e rest
        | inr e ↦ rw e ((omega (arith, half_day-le start d y, later), rest))
      ]
  kept start s t s' d y h (swept {t = t2} {s' = s2} now before_it later) =
      swept-Recent start now s2 (kept start s t2 s2 d y h before_it)

  -- Once a deletion succeeds, no log stays that is older than the twelve hours before it, and none
  -- comes back whatever is logged and deleted from then on.
  pub delete_old_logs-gone :
      (s : LS) (now : Time) (s1 : LS) (t : Time) (s2 : LS)
      → IsDate now
      → 1 ≤ now.year
      → delete_old_logs logs now s ≡ (none, s1)
      → History now s1 t s2
      → All (IsRecent now) (logs.rows s2)
  delete_old_logs-gone s now s1 t s2 d y done later =
      kept now s1 t s2 d y (deleted_lem now s s1 done) later
