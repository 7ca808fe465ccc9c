-- ===== src/RateLimit/Stored/Unseen.antt =====
-- Requests that are counted in a period which the limiter does not read.
use landmark_api.Common.{ℕ, ◌≤◌, ◌≡◌, refl, sym, String, false, Option, ok, inl, inr, arith, count}
use mathlib.Core.Path.{subst}
use landmark_api.Models.{Uuid, Subscription, ApiUsage, RateLimitConfig}
use landmark_api.Database.{Table, TableLaws}
use landmark_api.Subscriptions.{get_active_by_user_id}
use landmark_api.Usage.{current_period, in_period, no_usage, first_subscription, increment_usage}
use landmark_api.Usage.Counting.{requests, same_id, requests-count_request}
use landmark_api.Usage.Records.{has_id}
use landmark_api.RateLimit.Stored.{Stored, usage_service, recorded, increment-cases}

module _ {SS US : Type 0} (subs : Table SS Subscription) (usages : Table US ApiUsage)
    (uuid_string : Uuid → String) (usages_laws : TableLaws usages)
    (same_usage : usages.same_key ≡ same_id) where
  -- A call that counts a request takes the first of the user's subscriptions, whatever its status.
  -- Where its billing period is another than that of the active subscription, by which the limiter
  -- reads the usage, the call adds nothing to the usage that is read. The ids of the records
  -- differ.
  pub increment_usage-unseen :
      (config : RateLimitConfig) (commit : SS × US → Option String) (fresh : US → ℕ) (uid : Uuid)
      (w : Stored SS US) (x active : Subscription)
      → first_subscription usages uuid_string subs uid w.subs ≡ ok x
      → get_active_by_user_id subs w.clock uid w.subs ≡ ok active
      → ((id : ℕ) → count (has_id id) (usages.rows w.usages) ≤ 1)
      → let p = current_period w.clock active.start_date active.end_date in
        in_period
            (uuid_string uid)
            p
            (no_usage (uuid_string uid) (current_period w.clock x.start_date x.end_date))
          ≡ false
        → recorded subs usages uuid_string uid p
            ((usage_service subs usages uuid_string config commit fresh).increment_usage uid w).1
          ≡ recorded subs usages uuid_string uid p w
  increment_usage-unseen config commit fresh uid w x active first reads ids other =
      let active_period = current_period w.clock active.start_date active.end_date in
      let q = in_period (uuid_string uid) active_period in
      let db : SS × US =
        (increment_usage usages uuid_string subs commit (fresh w.usages) w.clock uid
          (w.subs, w.usages)).1 in
      elim (increment-cases subs usages uuid_string commit (fresh w.usages) w.clock uid w.subs
        w.usages) [
          | inl same ↦
              subst (λ d. requests q (usages.rows d.1) ≡ requests q (usages.rows w.usages))
                (sym same) refl
          | inr c ↦
              let same : c.first ≡ x = ground (arith, c.found, first) in
              let added =
                requests-count_request usages usages_laws same_usage uuid_string (fresh w.usages)
                  uid (current_period w.clock c.first.start_date c.first.end_date) w.usages db.1
                  (uuid_string uid) active_period (λ u m. ids u.id) c.counted in
              let elsewhere =
                subst
                  (λ y.
                    q (no_usage (uuid_string uid) (current_period w.clock y.start_date y.end_date))
                    ≡ false)
                  (sym same) other in
              ground (arith, added, elsewhere)
        ]
