-- ===== src/RateLimit/Stored/Quota.antt =====
-- What a call that counts a request does to the usage that the limiter reads, for the program's own
-- usage service.
use landmark_api.Common.{
  if◌then◌else◌, ℕ, ◌+◌, ◌≤◌, ◌≡◌, ◌≢◌, refl, sym, ap, String, false, Option, none, some, [], ok,
  Result-cases, Bool-cases, inl, inr, arith, Occurs, of-map, count, count-pos, map, eqb,
}
use mathlib.Core.Path.{subst}
use landmark_api.Common.Int.{ℤ, pos}
use landmark_api.Calendar.{Time, before}
use landmark_api.Models.{Uuid, User, Subscription, ApiUsage, RateLimitConfig}
use landmark_api.Database.{Table, TableLaws, with_where, with_order}
use landmark_api.Subscriptions
use landmark_api.Subscriptions.{is_active}
use landmark_api.Usage.{
  current_period, in_period, moved, find_usage, save_period, first_subscription, increment_usage,
  get_current_usage, UsageStats,
}
use landmark_api.Usage.Counting.{requests, same_id, requests-count_request}
use landmark_api.Usage.Records.{has_id, count_request-AreKeyed, find_usage-requests}
use landmark_api.RateLimit.Races.{Traffic, UsageLaws, Reach, Reach-within_quota}
use landmark_api.RateLimit.Stored.{
  Stored, same_subscription, usage_service, recorded, IsBilled, IsCounted, increment-cases,
}

module _ {SS US : Type 0} (subs : Table SS Subscription) (usages : Table US ApiUsage)
    (uuid_string : Uuid → String) (subs_laws : TableLaws subs)
    (same_sub : subs.same_key ≡ same_subscription) (usages_laws : TableLaws usages)
    (same_usage : usages.same_key ≡ same_id) where
  pub first-Occurs :
      (uid : Uuid) (ss : SS) (x : Subscription)
      → first_subscription usages uuid_string subs uid ss ≡ ok x
      → Occurs x (subs.rows ss) × (x.user_id ≡ uid)
  unfolding first_subscription
  first-Occurs uid ss x h =
      let query = with_where (λ (y : Subscription). eqb y.user_id uid) in
      elim (Result-cases (subs.first ss query)) [
        | inr (m, e) ↦ ground arith
        | inl (none, e) ↦ ground arith
        | inl (some y, e) ↦
            let (m, hit) = subs_laws.first_some ss query y e in
            let same : y ≡ x = ground arith in
            subst (λ z. Occurs z (subs.rows ss) × (z.user_id ≡ uid)) same (m, ground arith)
      ]

  active-Occurs :
      (now : Time) (uid : Uuid) (ss : SS) (x : Subscription)
      → Subscriptions.get_active_by_user_id subs now uid ss ≡ ok x
      → Occurs x (subs.rows ss) × (x.user_id ≡ uid)
  unfolding Subscriptions.get_active_by_user_id is_active
  active-Occurs now uid ss x h =
      let query = with_order (is_active now uid) "created_at DESC" in
      elim (Result-cases (subs.first ss query)) [
        | inr (m, e) ↦ ground arith
        | inl (none, e) ↦ ground arith
        | inl (some y, e) ↦
            let (m, hit) = subs_laws.first_some ss query y e in
            let same : y ≡ x = ground arith in
            subst (λ z. Occurs z (subs.rows ss) × (z.user_id ≡ uid)) same (m, ground arith)
      ]

  pub save_moved :
      (now : Time) (x : Subscription) (p : Time × Time) (ss ss' : SS)
      → Occurs x (subs.rows ss)
      → subs.save ss (moved now p x) ≡ ok ss'
      → subs.rows ss'
        ≡ map (λ y. if same_subscription (moved now p x) y then moved now p x else y) (subs.rows ss)
  save_moved now x p ss ss' m h =
      let rows = subs.rows ss in
      subst
        (λ f.
          count (f (moved now p x)) rows ≢ 0
          → subs.rows ss' ≡ map (λ y. if f (moved now p x) y then moved now p x else y) rows)
        same_sub (subs_laws.save_rows ss (moved now p x) ss' h)
        (λ z.
          omega (arith, z, count-pos (same_subscription (moved now p x)) rows x m (ground arith)))

  -- Where the subscription is saved, its dates are those of the period, and all others are kept.
  save_period-periods :
      (now : Time) (uid : Uuid) (x : Subscription) (p : Time × Time) (ss ss' : SS)
      → before p.1 now ≡ false
      → Occurs x (subs.rows ss)
      → save_period usages uuid_string subs now x p ss ≡ ok ss'
      → ((y : Subscription)
          → Occurs y (subs.rows ss)
          → y.user_id ≡ uid
          → current_period now y.start_date y.end_date ≡ p)
      → (y : Subscription) → Occurs y (subs.rows ss')
      → y.user_id ≡ uid
      → current_period now y.start_date y.end_date ≡ p
  unfolding save_period current_period
  save_period-periods now uid x p ss ss' not_over m h each y k mine =
      elim (Bool-cases (before x.end_date now)) [
        | inr open_still ↦
            let same : ss ≡ ss' = ground arith in
            each y (subst (λ s. Occurs y (subs.rows s)) (sym same) k) mine
        | inl past ↦
            let rows = save_moved now x p ss ss' m (ground arith) in
            let (z, l, e) = of-map _ (subs.rows ss) y (subst (λ r. Occurs y r) rows k) in
            elim (Bool-cases (eqb x.id z.id)) [
              | inl replaced ↦
                  let new : moved now p x ≡ y = ground arith in
                  subst (λ v. current_period now v.start_date v.end_date ≡ p) new
                    (rw (not_over, current_period) refl)
              | inr kept ↦
                  let old : z ≡ y = ground arith in
                  subst (λ v. current_period now v.start_date v.end_date ≡ p) old
                    (each z l (ground (arith, ap (λ v. v.user_id) old)))
            ]
      ]

  module _ (config : RateLimitConfig) (commit : SS × US → Option String) (fresh : US → ℕ)
      (new_ids : (us : US) → count (has_id (fresh us)) (usages.rows us) ≡ 0) (uid : Uuid)
      (p : Time × Time) where
    abbrev after_count : Stored SS US → SS × US
    after_count w =
        (increment_usage usages uuid_string subs commit (fresh w.usages) w.clock uid
          (w.subs, w.usages)).1

    abbrev counted : Stored SS US → Stored SS US
    counted w =
        ((usage_service subs usages uuid_string config commit fresh).increment_usage uid w).1

    -- The period in which a call counts is the billing period.
    pub IsCounted-period :
        (w : Stored SS US) (new : SS × US)
        → IsBilled subs usages uuid_string uid p w
        → (c : IsCounted subs usages uuid_string w.clock
            (fresh w.usages)
            uid
            (w.subs, w.usages)
            new)
        → Occurs c.first (subs.rows w.subs)
          × (current_period w.clock c.first.start_date c.first.end_date ≡ p)
    IsCounted-period w new billed c =
        let (m, mine) = first-Occurs uid w.subs c.first c.found in
        (m, billed.periods c.first m mine)

    counted-le :
        (w : Stored SS US)
        → IsBilled subs usages uuid_string uid p w
        → recorded subs usages uuid_string uid p (counted w)
          ≤ recorded subs usages uuid_string uid p w + 1
    counted-le w billed =
        elim (increment-cases subs usages uuid_string commit (fresh w.usages) w.clock uid w.subs
          w.usages) [
            | inl same ↦
                let q = in_period (uuid_string uid) p in
                subst
                  (λ db.
                    requests q (usages.rows db.1) ≤ recorded subs usages uuid_string uid p w + 1)
                  (sym same) (omega arith)
            | inr c ↦
                let (m, e) = IsCounted-period w _ billed c in
                let added =
                  requests-count_request usages usages_laws same_usage uuid_string (fresh w.usages)
                    uid p w.usages (after_count w).1 (uuid_string uid) p
                    (λ u k. billed.keyed.ids u.id) (rw (← e) c.counted) in
                ground (arith, added)
          ]

    pub counted-IsBilled :
        (w : Stored SS US)
        → IsBilled subs usages uuid_string uid p w
        → IsBilled subs usages uuid_string uid p (counted w)
    counted-IsBilled w billed =
        elim (increment-cases subs usages uuid_string commit (fresh w.usages) w.clock uid w.subs
          w.usages) [
            | inl same ↦ rw same billed
            | inr c ↦
                let (m, e) = IsCounted-period w _ billed c in
                record {
                  not_over = billed.not_over;
                  periods =
                      save_period-periods w.clock uid c.first p w.subs _ billed.not_over m
                        (rw (← e) c.saved) billed.periods;
                  keyed =
                      count_request-AreKeyed usages usages_laws same_usage uuid_string
                        (fresh w.usages) uid p w.usages _ (new_ids w.usages) (rw (← e) c.counted)
                        billed.keyed;
                }
          ]

    get_current_usage-recorded :
        (w : Stored SS US) (sub : Subscription) (stats : UsageStats)
        → IsBilled subs usages uuid_string uid p w
        → get_current_usage usages uuid_string subs config w.clock uid sub.plan_type w.subs w.usages
          ≡ ok stats
        → stats.current_count ≡ recorded subs usages uuid_string uid p w
    unfolding get_current_usage
    get_current_usage-recorded w sub stats billed h =
        elim (Result-cases (Subscriptions.get_active_by_user_id subs w.clock uid w.subs)) [
          | inr (m, e) ↦ ground arith
          | inl (x, e) ↦
              let (m, mine) = active-Occurs w.clock uid w.subs x e in
              let period = billed.periods x m mine in
              elim (Result-cases (find_usage usages uuid_string uid p w.usages)) [
                | inr (m, f) ↦ ground (arith, period)
                | inl (found, f) ↦
                    let read =
                      find_usage-requests usages usages_laws same_usage uuid_string uid p w.usages
                        found billed.keyed f in
                    ground (arith, period, read)
              ]
        ]

  module _ (config : RateLimitConfig) (commit : SS × US → Option String) (fresh : US → ℕ)
      (new_ids : (us : US) → count (has_id (fresh us)) (usages.rows us) ≡ 0)
      (split_host_port : String → Option String) (show_int : ℤ → String) (show_unix : Time → String)
      (user : User) (sub : Subscription) (p : Time × Time) where
    -- The usage service is one that the theorems on requests under way ask for.
    pub usage_service-UsageLaws :
        UsageLaws
          (usage_service subs usages uuid_string config commit fresh)
          config
          split_host_port
          show_int
          show_unix
          user
          sub
          (IsBilled subs usages uuid_string user.id p)
          (recorded subs usages uuid_string user.id p)
    usage_service-UsageLaws = record {
      reads = λ w stats billed h.
          get_current_usage-recorded config commit fresh new_ids user.id p w sub stats billed h;
      counts = λ w billed. counted-le config commit fresh new_ids user.id p w billed;
      keeps = λ w billed. counted-IsBilled config commit fresh new_ids user.id p w billed;
    }

    -- Over the program's own usage service and its tables, with a finite quota: while the requests
    -- of the user come one at a time, each entering after the one before it has been counted, the
    -- requests that the tables record for the user and the billing period never exceed the quota. At
    -- first they do not, the period is not over, it is that of every subscription of the user, it
    -- has one record at most, and the ids of the records differ; what else happens keeps this so and
    -- leaves the records of the period alone; the database gives ids that are new.
    pub recorded-within_quota :
        {n : ℕ} {w : Stored SS US} {t : Traffic (Stored SS US)}
        → config.limits sub.plan_type ≡ pos n
        → recorded subs usages uuid_string user.id p w ≤ n
        → IsBilled subs usages uuid_string user.id p w
        → Reach
            (usage_service subs usages uuid_string config commit fresh)
            config
            split_host_port
            show_int
            show_unix
            user
            sub
            (IsBilled subs usages uuid_string user.id p)
            (recorded subs usages uuid_string user.id p)
            1
            (record { world = w; flights = [] })
            t
        → recorded subs usages uuid_string user.id p t.world ≤ n
    recorded-within_quota {n} {w} {t} finite within billed r =
        let bound =
          Reach-within_quota (usage_service subs usages uuid_string config commit fresh) config
            split_host_port show_int show_unix user sub (IsBilled subs usages uuid_string user.id p)
            (recorded subs usages uuid_string user.id p) usage_service-UsageLaws {k = 1} {n = n}
            {w = w} {t = t} finite (omega arith) within billed r in
        omega (arith, bound)
