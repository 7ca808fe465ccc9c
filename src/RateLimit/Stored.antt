-- ===== src/RateLimit/Stored.antt =====
-- The usage service that main.go hands to the rate limiter: internal/services/api_usage_service.go
-- over the tables, with the clock beside them. A call of IncrementUsage is one step here, as it is
-- where the requests of a user come one at a time. Calls for one user that overlap are not modelled:
-- the transaction reads the record and then writes it, with no lock and no unique key, so two of
-- them may create two records or write the same count.
pub mod Quota
pub mod Unseen
pub mod Clock
pub mod Overrun
use landmark_api.Common.{
  ℕ, ◌≡◌, ◌⊎◌, refl, String, Bool, false, Option, ok, Result-cases, Option-cases, inl, inr, arith,
  Occurs, count, eqb,
}
use landmark_api.Calendar.{Time, before}
use landmark_api.Models.{Uuid, Subscription, ApiUsage, RateLimitConfig}
use landmark_api.Database.{Table}
use landmark_api.Subscriptions
use landmark_api.Usage.{
  current_period, in_period, count_request, save_period, first_subscription, increment_in_tx,
  increment_usage, get_current_usage,
}
use landmark_api.Usage.Counting.{requests}
use landmark_api.Usage.Records.{AreKeyed}
use landmark_api.RateLimit.{UsageService}

-- What time.Now gives, and the tables.
pub record Stored (SS US : Type 0) : Type 0 where
  pub clock : Time
  pub subs : SS
  pub usages : US

abbrev pub same_subscription : Subscription → Subscription → Bool
same_subscription x y = eqb x.id y.id

module _ {SS US : Type 0} (subs : Table SS Subscription) (usages : Table US ApiUsage)
    (uuid_string : Uuid → String) where
  -- `commit` is the error of the commit, if there is one, and `fresh` the id of a new record.
  abbrev pub usage_service :
      RateLimitConfig → (SS × US → Option String) → (US → ℕ) → UsageService (Stored SS US)
  usage_service config commit fresh = record {
    get_current_usage = λ uid plan w.
        get_current_usage usages uuid_string subs config w.clock uid plan w.subs w.usages;
    increment_usage = λ uid w.
        let (e, db) =
          increment_usage usages uuid_string subs commit (fresh w.usages) w.clock uid
            (w.subs, w.usages) in
        (e, record w { subs = db.0; usages = db.1 });
  }

  -- The requests that the tables count for a user in a period.
  abbrev pub recorded : Uuid → Time × Time → Stored SS US → ℕ
  recorded uid p w = requests (in_period (uuid_string uid) p) (usages.rows w.usages)

  -- The period is not over, and it is that of every subscription of the user; the ids of the
  -- records differ, and the period has one record at most.
  pub record IsBilled (uid : Uuid) (p : Time × Time) (w : Stored SS US) : Type 0 where
    pub not_over : before p.1 w.clock ≡ false
    pub periods :
        (x : Subscription)
        → Occurs x (subs.rows w.subs)
        → x.user_id ≡ uid
        → current_period w.clock x.start_date x.end_date ≡ p
    pub keyed : AreKeyed (uuid_string uid) p (usages.rows w.usages)

  -- All statements of the transaction succeed.
  pub record IsCounted (now : Time) (fresh : ℕ) (uid : Uuid) (old new : SS × US) : Type 0 where
    pub first : Subscription
    pub found : first_subscription usages uuid_string subs uid old.0 ≡ ok first
    pub saved :
        save_period usages uuid_string subs now first
          (current_period now first.start_date first.end_date)
          old.0
        ≡ ok new.0
    pub counted :
        count_request usages uuid_string fresh uid
          (current_period now first.start_date first.end_date)
          old.1
        ≡ ok new.1

  pub increment_in_tx-IsCounted :
      (fresh : ℕ) (now : Time) (uid : Uuid) (ss ss' : SS) (us us' : US)
      → increment_in_tx usages uuid_string subs fresh now uid (ss, us) ≡ ok (ss', us')
      → IsCounted now fresh uid (ss, us) (ss', us')
  unfolding increment_in_tx
  increment_in_tx-IsCounted fresh now uid ss ss' us us' h =
      elim (Result-cases (first_subscription usages uuid_string subs uid ss)) [
        | inr (m, e) ↦ ground arith
        | inl (x, e) ↦
            let p = current_period now x.start_date x.end_date in
            elim (Result-cases (save_period usages uuid_string subs now x p ss)) [
              | inr (m, f) ↦ ground arith
              | inl (ss'', f) ↦
                  elim (Result-cases (count_request usages uuid_string fresh uid p us)) [
                    | inr (m, g) ↦ ground arith
                    | inl (us'', g) ↦ record {
                      first = x;
                      found = e;
                      saved = ground arith;
                      counted = ground arith;
                    }
                  ]
            ]
      ]

  -- A call that counts a request changes nothing, or all of its statements succeed.
  pub increment-cases :
      (commit : SS × US → Option String) (fresh : ℕ) (now : Time) (uid : Uuid) (ss : SS) (us : US)
      → let db = (increment_usage usages uuid_string subs commit fresh now uid (ss, us)).1 in
        (db ≡ (ss, us)) ⊎ IsCounted now fresh uid (ss, us) db
  unfolding increment_usage
  increment-cases commit fresh now uid ss us =
      elim (Result-cases (increment_in_tx usages uuid_string subs fresh now uid (ss, us))) [
        | inr (m, e) ↦ rw (e, increment_usage) (inl refl)
        | inl ((ss', us'), e) ↦ elim (Option-cases (commit (ss', us'))) [
          | inr (m, c) ↦ rw (e, c, increment_usage) (inl refl)
          | inl c ↦
              rw (e, c, increment_usage)
                (inr (increment_in_tx-IsCounted fresh now uid ss ss' us us' e))
        ]
      ]
