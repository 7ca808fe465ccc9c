-- ===== src/RateLimit/Stored/Overrun.antt =====
-- Requests of one user that are let through by the same count, over the program's own usage service.
use landmark_api.Common.{
  ℕ, ◌+◌, ◌≡◌, refl, sym, String, true, Option, none, some, ok, [], inl, inr, arith, Bool-cases,
  Occurs, Occurs-map, count, count-pos, map, eqb, eq_iff, if◌then◌else◌,
}
use mathlib.Core.Path.{subst}
use landmark_api.Common.Int.{ℤ, pos}
use landmark_api.Calendar.{Time, before}
use landmark_api.Models.{Uuid, User, Subscription, ApiUsage, RateLimitConfig}
use landmark_api.Database.{Table, TableLaws, Query, with_where}
use landmark_api.Usage.{
  UsageStats, current_period, in_period, no_usage, bumped, moved, find_usage, count_request,
  save_period, first_subscription, increment_in_tx, increment_usage, get_current_usage,
}
use landmark_api.Usage.Counting.{same_id, requests-count_request}
use landmark_api.Usage.Records.{has_id}
use landmark_api.RateLimit.Races.{Reach, quota_overrun}
use landmark_api.RateLimit.Stored.{
  Stored, same_subscription, usage_service, recorded, IsBilled, IsCounted,
  increment_in_tx-IsCounted,
}
use landmark_api.RateLimit.Stored.Quota.{
  first-Occurs, save_moved, IsCounted-period, counted-IsBilled, usage_service-UsageLaws,
}

-- A table on which no statement fails.
pub record Succeeds {S Row : Type 0} (t : Table S Row) : Type 0 where
  pub firsts : (s : S) (q : Query Row) → (o : Option Row) × (t.first s q ≡ ok o)
  pub creates : (s : S) (r : Row) → (s' : S) × (t.create s r ≡ ok s')
  pub saves : (s : S) (r : Row) → (s' : S) × (t.save s r ≡ ok s')

module _ {SS US : Type 0} (subs : Table SS Subscription) (usages : Table US ApiUsage)
    (uuid_string : Uuid → String) (subs_laws : TableLaws subs)
    (same_sub : subs.same_key ≡ same_subscription) (usages_laws : TableLaws usages)
    (same_usage : usages.same_key ≡ same_id) where
  -- The user has a subscription, and it is billed by the period.
  pub record IsSubscribed (uid : Uuid) (p : Time × Time) (w : Stored SS US) : Type 0 where
    pub billed : IsBilled subs usages uuid_string uid p w
    pub plan : Subscription
    pub stored : Occurs plan (subs.rows w.subs) × (plan.user_id ≡ uid)

  own_period :
      (uid : Uuid) (p : Time × Time)
      → in_period (uuid_string uid) p (no_usage (uuid_string uid) p) ≡ true
  unfolding in_period
  own_period uid p = ground (arith, eq_iff (uuid_string uid) (uuid_string uid))

  save_period-Occurs :
      (now : Time) (uid : Uuid) (x : Subscription) (p : Time × Time) (ss ss' : SS)
      → Occurs x (subs.rows ss)
      → x.user_id ≡ uid
      → save_period usages uuid_string subs now x p ss ≡ ok ss'
      → (y : Subscription) × Occurs y (subs.rows ss') × (y.user_id ≡ uid)
  unfolding save_period
  save_period-Occurs now uid x p ss ss' m mine h = elim (Bool-cases (before x.end_date now)) [
    | inr open_still ↦
        let same : ss ≡ ss' = ground arith in (x, subst (λ s. Occurs x (subs.rows s)) same m, mine)
    | inl past ↦
        let rows =
          save_moved subs usages uuid_string subs_laws same_sub usages_laws same_usage now x p ss
            ss' m (ground arith) in
        let f : Subscription → Subscription =
          λ y. if same_subscription (moved now p x) y then moved now p x else y in
        let own : f x ≡ moved now p x = ground arith in
        (
          moved now p x,
          subst (Occurs (moved now p x)) (sym rows)
              (subst (λ y. Occurs y (map f (subs.rows ss))) own (Occurs-map f (subs.rows ss) x m)),
          mine,
        )
  ]

  module _ (subs_answer : Succeeds subs) (usages_answer : Succeeds usages) where
    first_subscription-ok :
        (uid : Uuid) (ss : SS) (x : Subscription)
        → Occurs x (subs.rows ss)
        → x.user_id ≡ uid
        → (y : Subscription) × (first_subscription usages uuid_string subs uid ss ≡ ok y)
    unfolding first_subscription
    first_subscription-ok uid ss x m mine =
        let query = with_where (λ (y : Subscription). eqb y.user_id uid) in
        let (o, e) = subs_answer.firsts ss query in
        elim o
            as (λ o.
              subs.first ss query ≡ ok o
              → (y : Subscription) × (first_subscription usages uuid_string subs uid ss ≡ ok y)) [
                | none ↦ λ e. absurd (
                    omega (
                      arith,
                      subs_laws.first_none ss query e,
                      count-pos query.matches (subs.rows ss) x m (ground arith),
                    ))
                | some y ↦ λ e. (y, rw (e, first_subscription) refl)
              ]
          e

    save_period-ok :
        (now : Time) (x : Subscription) (p : Time × Time) (ss : SS)
        → (ss' : SS) × (save_period usages uuid_string subs now x p ss ≡ ok ss')
    unfolding save_period
    save_period-ok now x p ss = elim (Bool-cases (before x.end_date now)) [
      | inr open_still ↦ (ss, ground arith)
      | inl past ↦ let (ss', e) = subs_answer.saves ss (moved now p x) in (ss', ground arith)
    ]

    count_request-ok :
        (fresh : ℕ) (uid : Uuid) (p : Time × Time) (us : US)
        → (us' : US) × (count_request usages uuid_string fresh uid p us ≡ ok us')
    unfolding count_request find_usage
    count_request-ok fresh uid p us =
        let query = with_where (in_period (uuid_string uid) p) in
        let (o, e) = usages_answer.firsts us query in
        elim o
            as (λ o.
              usages.first us query ≡ ok o
              → (us' : US) × (count_request usages uuid_string fresh uid p us ≡ ok us')) [
                | none ↦ λ e.
                    let (us', made) =
                      usages_answer.creates us
                        (record (no_usage (uuid_string uid) p) { id = fresh; request_count = 1 }) in
                    (us', ground (arith, e, made))
                | some u ↦ λ e.
                    let (us', made) = usages_answer.saves us (bumped u) in
                    (us', ground (arith, e, made))
              ]
          e

    module _ (config : RateLimitConfig) (commit : SS × US → Option String)
        (committed : (db : SS × US) → commit db ≡ none) (fresh : US → ℕ)
        (new_ids : (us : US) → count (has_id (fresh us)) (usages.rows us) ≡ 0) (uid : Uuid)
        (p : Time × Time) where
      abbrev after_count : Stored SS US → SS × US
      after_count w =
          (increment_usage usages uuid_string subs commit (fresh w.usages) w.clock uid
            (w.subs, w.usages)).1

      abbrev counted : Stored SS US → Stored SS US
      counted w =
          ((usage_service subs usages uuid_string config commit fresh).increment_usage uid w).1

      -- The call stores all that its transaction writes.
      after_count-IsCounted :
          (w : Stored SS US)
          → IsSubscribed uid p w
          → IsCounted subs usages uuid_string w.clock
              (fresh w.usages)
              uid
              (w.subs, w.usages)
              (after_count w)
      unfolding increment_usage increment_in_tx
      after_count-IsCounted w s =
          let (x, found) = first_subscription-ok uid w.subs s.plan s.stored.0 s.stored.1 in
          let q = current_period w.clock x.start_date x.end_date in
          let (ss, saved) = save_period-ok w.clock x q w.subs in
          let (us, made) = count_request-ok (fresh w.usages) uid q w.usages in
          let done : increment_in_tx usages uuid_string subs (fresh w.usages) w.clock uid
                (w.subs, w.usages)
              ≡ ok (ss, us) =
            ground (arith, found, saved, made) in
          let stored : after_count w ≡ (ss, us) = ground (arith, done, committed (ss, us)) in
          subst (IsCounted subs usages uuid_string w.clock (fresh w.usages) uid (w.subs, w.usages))
            (sym stored)
            (increment_in_tx-IsCounted subs usages uuid_string (fresh w.usages) w.clock uid w.subs
              ss w.usages us done)

      counted-exact :
          (w : Stored SS US)
          → IsSubscribed uid p w
          → recorded subs usages uuid_string uid p (counted w)
            ≡ recorded subs usages uuid_string uid p w + 1
      counted-exact w s =
          let c = after_count-IsCounted w s in
          let (m, e) =
            IsCounted-period subs usages uuid_string subs_laws same_sub usages_laws same_usage
              config commit fresh new_ids uid p w (after_count w) s.billed c in
          let added =
            requests-count_request usages usages_laws same_usage uuid_string (fresh w.usages) uid p
              w.usages (after_count w).1 (uuid_string uid) p (λ u k. s.billed.keyed.ids u.id)
              (rw (← e) c.counted) in
          ground (arith, added, own_period uid p)

      counted-IsSubscribed :
          (w : Stored SS US) → IsSubscribed uid p w → IsSubscribed uid p (counted w)
      counted-IsSubscribed w s =
          let c = after_count-IsCounted w s in
          let (m, mine) =
            first-Occurs subs usages uuid_string subs_laws same_sub usages_laws same_usage uid
              w.subs c.first c.found in
          let (plan, there, own) =
            save_period-Occurs w.clock uid c.first
              (current_period w.clock c.first.start_date c.first.end_date) w.subs (after_count w).0
              m mine c.saved in
          record {
            billed =
                counted-IsBilled subs usages uuid_string subs_laws same_sub usages_laws same_usage
                  config commit fresh new_ids uid p w s.billed;
            plan = plan;
            stored = (there, own);
          }

    -- Where no statement fails: from a usage one below a finite quota there is an order of the steps
    -- of `k` requests of a user, with calls of IncrementUsage that follow one another, after which
    -- all of them were let through, and the tables record for the user and the billing period the
    -- quota and `k` together, less one. The user has a subscription and can read the usage; the
    -- period is not over, it is that of every subscription of the user, it has one record at most,
    -- and the ids of the records differ; the database gives ids that are new.
    pub recorded-overrun :
        (config : RateLimitConfig) (commit : SS × US → Option String)
        (committed : (db : SS × US) → commit db ≡ none) (fresh : US → ℕ)
        (new_ids : (us : US) → count (has_id (fresh us)) (usages.rows us) ≡ 0)
        (split_host_port : String → Option String) (show_int : ℤ → String)
        (show_unix : Time → String) (user : User) (sub : Subscription) (p : Time × Time) (k n : ℕ)
        (w : Stored SS US) (stats : UsageStats)
        → config.limits sub.plan_type ≡ pos n
        → recorded subs usages uuid_string user.id p w + 1 ≡ n
        → IsSubscribed user.id p w
        → get_current_usage usages uuid_string subs config w.clock user.id sub.plan_type w.subs
            w.usages
          ≡ ok stats
        → (w' : Stored SS US) × Reach
            (usage_service subs usages uuid_string config commit fresh)
            config
            split_host_port
            show_int
            show_unix
            user
            sub
            (IsSubscribed user.id p)
            (recorded subs usages uuid_string user.id p)
            k
            (record { world = w; flights = [] })
            (record { world = w'; flights = [] })
          × (recorded subs usages uuid_string user.id p w' + 1 ≡ n + k)
    recorded-overrun config commit committed fresh new_ids split_host_port show_int show_unix user
          sub p k n w stats finite last subscribed read =
        let laws =
          usage_service-UsageLaws subs usages uuid_string subs_laws same_sub usages_laws same_usage
            config commit fresh new_ids split_host_port show_int show_unix user sub p in
        quota_overrun (usage_service subs usages uuid_string config commit fresh) config
          split_host_port show_int show_unix user sub (IsSubscribed user.id p)
          (recorded subs usages uuid_string user.id p)
          (record {
            reads = λ v t s. laws.reads v t s.billed;
            counts = λ v s. laws.counts v s.billed;
            keeps = λ v s. counted-IsSubscribed config commit committed fresh new_ids user.id p v s;
          })
          k n w stats finite last subscribed read
          (λ v s. counted-exact config commit committed fresh new_ids user.id p v s)
