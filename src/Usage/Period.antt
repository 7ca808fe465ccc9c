-- ===== src/Usage/Period.antt =====
-- The billing period that contains the present.
use landmark_api.Common.{
  ℕ, zero, suc, ◌+◌, ◌≤◌, ◌≡◌, refl, true, false, arith, inl, inr, Bool-cases,
}
use landmark_api.Calendar.{Time, stamp, before, add_month, IsDate}
use landmark_api.Calendar.Months.{months, add_month-IsDate, months-add_month, stamp-lt_of_months}
use landmark_api.Usage.{roll, rounds, current_period}

-- `(s, e)` comes from `(start, end)` by months that follow one another, each begun in the past.
pub data Rolled (now start end : Time) : Time → Time → Type 0 where
  here : Rolled now start end start end
  next :
      {s e : Time}
      → Rolled now start end s e
      → before e now ≡ true
      → Rolled now start end e (add_month e)

-- The period for `now`: reached from the subscription's dates month by month, not over yet.
pub record IsPeriod (now start end : Time) (p : Time × Time) : Type 0 where
  pub rolled : Rolled now start end p.0 p.1
  pub not_over : before p.1 now ≡ false
  pub date : IsDate p.1

Rolled-unroll :
    (now start end : Time) {s e : Time}
    → before end now ≡ true
    → Rolled now end (add_month end) s e
    → Rolled now start end s e
Rolled-unroll now start end h here = next here h
Rolled-unroll now start end h (next r k) = next (Rolled-unroll now start end h r) k

roll-IsPeriod :
    (fuel : ℕ) (now start end : Time)
    → IsDate now
    → IsDate end
    → months now + 1 ≤ months end + fuel
    → IsPeriod now start end (roll fuel now start end)
unfolding roll
roll-IsPeriod zero now start end dn de h = record {
  rolled = here;
  not_over = ground (arith, stamp-lt_of_months now end dn de (omega arith));
  date = de;
}
roll-IsPeriod (suc fuel) now start end dn de h = elim (Bool-cases (before end now)) [
  | inl past ↦
      let r =
        roll-IsPeriod fuel now end (add_month end) dn (add_month-IsDate end de)
          (omega (arith, months-add_month end de)) in
      rw past (record {
        rolled = Rolled-unroll now start end past r.rolled;
        not_over = r.not_over;
        date = r.date;
      })
  | inr open_still ↦ rw open_still (record { rolled = here; not_over = open_still; date = de })
]

-- For dates of the calendar the loop over months ends by its own test: the period that is found
-- is not over, and it comes from the subscription's dates by whole months, each of which began
-- before now.
pub current_period-IsPeriod :
    (now start end : Time)
    → IsDate now
    → IsDate end
    → IsPeriod now start end (current_period now start end)
unfolding current_period
current_period-IsPeriod now start end dn de = elim (Bool-cases (before end now)) [
  | inl past ↦ rw past (roll-IsPeriod (rounds now) now start end dn de (omega arith))
  | inr open_still ↦ rw open_still (record { rolled = here; not_over = open_still; date = de })
]

roll-later :
    (fuel more : ℕ) (now later start end : Time)
    → stamp now ≤ stamp later
    → fuel ≤ more
    → before (roll fuel now start end).1 later ≡ false
    → roll more later start end ≡ roll fuel now start end
unfolding roll
roll-later zero zero now later start end after_now enough open_still = refl
roll-later zero (suc more) now later start end after_now enough open_still = rw open_still refl
roll-later (suc fuel) zero now later start end after_now enough open_still = absurd (omega arith)
roll-later (suc fuel) (suc more) now later start end after_now enough open_still =
    elim (Bool-cases (before end now)) [
      | inl past ↦
          let past_later : before end later ≡ true = ground arith in
          rw (past, past_later)
            (roll-later fuel more now later end (add_month end) after_now (omega arith)
              (rw past at open_still))
      | inr current ↦
          let ends : before end later ≡ false = rw current at open_still in rw (current, ends) refl
    ]

-- The period that is found for one time is found for each later time too, until it is over.
pub current_period-later :
    (now later start end : Time)
    → IsDate now
    → IsDate later
    → stamp now ≤ stamp later
    → before (current_period now start end).1 later ≡ false
    → current_period later start end ≡ current_period now start end
unfolding current_period
current_period-later now later start end dn dl after_now open_still =
    let enough : rounds now ≤ rounds later = ground (arith, stamp-lt_of_months later now dl dn) in
    elim (Bool-cases (before end now)) [
      | inl past ↦
          let past_later : before end later ≡ true = ground arith in
          rw (past, past_later)
            (roll-later (rounds now) (rounds later) now later start end after_now enough
              (rw past at open_still))
      | inr current ↦
          let ends : before end later ≡ false = rw current at open_still in rw (current, ends) refl
    ]
