-- ===== src/Usage/Expiry.antt =====
-- What counting a request does to a subscription without an end date.
use landmark_api.Common.{
  ◌≡◌, ap, ◌≤◌, ◌<◌, true, false, arith, ok, Occurs, Occurs-map, count-pos, String, if◌then◌else◌,
  map,
}
use mathlib.Core.Path.{subst}
use landmark_api.Calendar.{Time, stamp, zero_time, is_zero, before, after, IsDate}
use landmark_api.Models.{Uuid, Subscription, ApiUsage}
use landmark_api.Database.{Table, TableLaws}
use landmark_api.Usage.{save_period, moved, current_period}
use landmark_api.Usage.Period.{current_period-IsPeriod}
use landmark_api.Subscriptions.{is_active}

-- The dates that are saved end the subscription.
moved-is_active :
    (now later : Time) (uid : Uuid) (x : Subscription) (p : Time × Time)
    → stamp zero_time < stamp now
    → before p.1 now ≡ false
    → stamp p.1 ≤ stamp later
    → is_active later uid (moved now p x) ≡ false
unfolding is_active is_zero
moved-is_active now later uid x p started open_still over = ground arith

kept-is_active :
    (now later : Time) (uid : Uuid) (x : Subscription)
    → is_zero x.end_date ≡ true
    → is_active now uid x ≡ true
    → is_active later uid x ≡ true
unfolding is_active
kept-is_active now later uid x null h = ground arith

null-after :
    (now end : Time) → stamp zero_time < stamp now → is_zero end ≡ true → after now end ≡ true
unfolding is_zero
null-after now end started null = ground arith

module _ {SS : Type 0} (subs : Table SS Subscription) (l : TableLaws subs) {US : Type 0}
    (usages : Table US ApiUsage) (uuid_string : Uuid → String) where
  -- A subscription with no end date, as every registration creates it, stays active at all times.
  -- Once IncrementUsage has saved it with the current billing period, the table holds it with dates
  -- at which it is no longer active from the end of that period on, though nobody cancelled it.
  pub save_period-expires :
      (now later : Time) (uid : Uuid) (x : Subscription) (ss ss' : SS)
      → IsDate now
      → stamp zero_time < stamp now
      → Occurs x (subs.rows ss)
      → subs.same_key (moved now (current_period now x.start_date x.end_date) x) x ≡ true
      → is_active now uid x ≡ true
      → is_zero x.end_date ≡ true
      → IsDate x.end_date
      → stamp (current_period now x.start_date x.end_date).1 ≤ stamp later
      → save_period usages uuid_string subs now x (current_period now x.start_date x.end_date) ss
        ≡ ok ss'
      → (is_active later uid x ≡ true)
        × Occurs (moved now (current_period now x.start_date x.end_date) x) (subs.rows ss')
        × (is_active later uid (moved now (current_period now x.start_date x.end_date) x) ≡ false)
  unfolding save_period
  save_period-expires now later uid x ss ss' dn started m key active null de over h =
      let p = current_period now x.start_date x.end_date in
      let period = current_period-IsPeriod now x.start_date x.end_date dn de in
      let due = null-after now x.end_date started null in
      let saved : subs.save ss (moved now p x) ≡ ok ss' = ground arith in
      let g : Subscription → Subscription =
        λ y. if subs.same_key (moved now p x) y then moved now p x else y in
      let rows =
        l.save_rows ss (moved now p x) ss' saved (λ z.
          omega (arith, z, count-pos (subs.same_key (moved now p x)) (subs.rows ss) x m key)) in
      (
        kept-is_active now later uid x null active,
        rw rows (
            subst (λ y. Occurs y (map g (subs.rows ss)))
              (ap (λ b. if b then moved now p x else x) key) (Occurs-map g (subs.rows ss) x m)),
        moved-is_active now later uid x p started period.not_over over,
      )
