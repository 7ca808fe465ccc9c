-- ===== src/Usage.antt =====
-- internal/services/api_usage_service.go and internal/repository/api_usage_repository.go: the
-- requests that a user has made in the current billing period.
pub mod Period
pub mod Counting
pub mod Records
pub mod Expiry
use landmark_api.Common.{
  ℕ, zero, suc, ◌+◌, ◌*◌, String, Bool, ◌&&◌, Option, none, some, Result, ok, err, map_err, ◌>>=◌,
  eqb, ◌==◌, if◌then◌else◌,
}
use landmark_api.Common.Int.{ℤ, minus_count}
use landmark_api.Calendar.{Time, before, after, stamp, add_month}
use landmark_api.Errors.{Error, driver, record_not_found}
use landmark_api.Models.{
  Uuid, Subscription, SubscriptionPlan, ApiUsage, RateLimitConfig, before_update_subscription,
}
use landmark_api.Repository.{inserted}
use landmark_api.Database.{Table, with_where}
use landmark_api.Subscriptions

pub record UsageStats : Type 0 where
  pub current_count : ℕ
  pub limit : ℤ
  pub remaining_requests : ℤ
  pub period_end : Time

-- `for periodEnd.Before(now) { periodStart = periodEnd; periodEnd = periodEnd.AddDate(0, 1, 0) }`
unfoldable pub roll : ℕ → Time → Time → Time → Time × Time
roll zero now start end = (start, end)
roll (suc fuel) now start end =
    let rest = roll fuel now end (add_month end) in if before end now then rest else (start, end)

-- One round for each month up to `now` is enough.
abbrev pub rounds : Time → ℕ
rounds now = now.year * 12 + now.month + 1

unfoldable pub current_period : Time → Time → Time → Time × Time
current_period now start end =
    if after now end then roll (rounds now) now start end else (start, end)

-- `user_id = ? AND period_start = ? AND period_end = ?`
unfoldable pub in_period : String → Time × Time → ApiUsage → Bool
in_period uid p u =
    u.user_id == uid
    && (eqb (stamp u.period_start) (stamp p.0) && eqb (stamp u.period_end) (stamp p.1))

abbrev pub no_usage : String → Time × Time → ApiUsage
no_usage uid p = record {
  id = 0;
  user_id = uid;
  request_count = 0;
  period_start = p.0;
  period_end = p.1;
}

abbrev pub bumped : ApiUsage → ApiUsage
bumped u = record u { request_count = u.request_count + 1 }

-- The dates of the period, with the hook that Save runs.
abbrev pub moved : Time → Time × Time → Subscription → Subscription
moved now p x = before_update_subscription now (record x { start_date = p.0; end_date = p.1 })

abbrev pub or_no_usage : String → Time × Time → Option ApiUsage → ApiUsage
or_no_usage uid p none = no_usage uid p
or_no_usage uid p (some u) = u

module _ {US : Type 0} (usages : Table US ApiUsage) (uuid_string : Uuid → String) where
  -- (*apiUsageRepository).GetCurrentUsage: no record is no error.
  unfoldable pub find_usage : Uuid → Time × Time → US → Result Error (Option ApiUsage)
  find_usage uid p us =
      map_err driver (usages.first us (with_where (in_period (uuid_string uid) p)))

  -- The last part of the transaction: the usage record is created or counted up. `fresh` is the id
  -- that the database gives to a new record.
  unfoldable pub count_request : ℕ → Uuid → Time × Time → US → Result Error US
  unfolding find_usage
  count_request fresh uid p us = do
    found ← find_usage uid p us
    elim found [
      | none ↦ map_err driver (
          usages.create us
            (record (no_usage (uuid_string uid) p) { id = fresh; request_count = 1 }))
      | some u ↦ map_err driver (usages.save us (bumped u))
    ]

  module _ {SS : Type 0} (subs : Table SS Subscription) where
    -- (*apiUsageService).GetCurrentUsage
    unfoldable pub get_current_usage :
        RateLimitConfig → Time → Uuid → SubscriptionPlan → SS → US → Result Error UsageStats
    get_current_usage config now uid plan ss us = do
      sub ← Subscriptions.get_active_by_user_id subs now uid ss
      let p = current_period now sub.start_date sub.end_date
      found ← find_usage uid p us
      let used = or_no_usage (uuid_string uid) p found
      ok (record {
        current_count = used.request_count;
        limit = config.limits plan;
        remaining_requests = minus_count (config.limits plan) used.request_count;
        period_end = p.1;
      })

    -- tx.Where("user_id = ?", userID).First(&subscription)
    unfoldable pub first_subscription : Uuid → SS → Result Error Subscription
    first_subscription uid ss = elim (subs.first ss (with_where (λ x. eqb x.user_id uid))) [
      | ok none ↦ err record_not_found
      | ok (some x) ↦ ok x
      | err m ↦ err (driver m)
    ]

    -- The subscription is saved if its billing date has passed.
    unfoldable pub save_period : Time → Subscription → Time × Time → SS → Result Error SS
    save_period now x p ss =
        if after now x.end_date then map_err driver (subs.save ss (moved now p x)) else ok ss

    -- The function that IncrementUsage hands to db.Transaction.
    unfoldable pub increment_in_tx : ℕ → Time → Uuid → SS × US → Result Error (SS × US)
    increment_in_tx fresh now uid (ss, us) = do
      x ← first_subscription uid ss
      let p = current_period now x.start_date x.end_date
      ss' ← save_period now x p ss
      us' ← count_request fresh uid p us
      ok (ss', us')

    -- (*apiUsageRepository).IncrementUsage: an error, that of `commit` included, rolls back.
    unfoldable pub increment_usage :
        (SS × US → Option String) → ℕ → Time → Uuid → SS × US → Option Error × (SS × US)
    increment_usage commit fresh now uid db = elim (increment_in_tx fresh now uid db) [
      | err e ↦ (some e, db)
      | ok db' ↦ elim (commit db') [ none ↦ (none, db') | some m ↦ (some (driver m), db) ]
    ]

-- CreateNewPeriod.
unfoldable pub create_new_period : {S : Type 0} → Table S ApiUsage → ApiUsage → S → Option Error × S
create_new_period usages usage s = inserted driver s (usages.create s usage)
