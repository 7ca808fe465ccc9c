-- ===== src/RateLimit/Quota.antt =====
-- Which requests the limiter lets through to the handler, and what it does with them.
use landmark_api.Common.{
  ℕ, String, ◌≡◌, ◌≢◌, refl, true, false, Option, some, ok, if◌then◌else◌, arith, ◌==◌, eq_iff, inl,
  inr, ◌⊎◌, Bool-cases, Option-cases, Result-cases, leb,
}
use landmark_api.Common.Int.{ℤ}
use landmark_api.Calendar.{Time}
use landmark_api.Models.{
  RateLimitConfig, User, Subscription, SubscriptionPlan, new_rate_limit_config, free_plan, pro_plan,
  enterprise_plan,
}
use landmark_api.Http.{Request, Context, Writer, Handler, set}
use landmark_api.Http.Fields.{get_header}
use landmark_api.Usage.{UsageStats}
use landmark_api.RateLimit.{
  UsageService, Limited, rate_limit, known_user, within_quota, account, is_ip_rate_limited,
  is_spent,
}

module _ {W : Type 0} (service : UsageService W) (config : RateLimitConfig)
    (split_host_port : String → Option String) (show_int : ℤ → String) (show_unix : Time → String)
    (now : ℕ) (r : Request) (ctx : Context) (w : Writer) (s : Limited W) where
  -- The request may pass: its address is known and not limited, it has a user and a subscription,
  -- and the usage is known and under the quota.
  pub record IsAdmitted : Type 0 where
    pub ip : String
    pub user : User
    pub sub : Subscription
    pub stats : UsageStats
    pub from_ip : split_host_port r.remote_addr ≡ some ip
    pub ip_free : (is_ip_rate_limited config now ip s.ip_limits).0 ≡ false
    pub has_user : ctx.user ≡ some user
    pub has_sub : ctx.subscription ≡ some sub
    pub used : service.get_current_usage user.id sub.plan_type s.world ≡ ok stats
    pub under : is_spent (config.limits sub.plan_type) stats.current_count ≡ false

  abbrev run : Handler W → Writer × Limited W
  run next = rate_limit service config split_host_port show_int show_unix now next r ctx w s

  -- Refused: no handler is run, and the world is left alone.
  abbrev pub IsRefused : Handler W → Handler W → Type 0
  IsRefused next next' = (run next ≡ run next') × ((run next).1.world ≡ s.world)

  quota :
      (next next' : Handler W) (ip : String) (user : User) (sub : Subscription)
      → split_host_port r.remote_addr ≡ some ip
      → (is_ip_rate_limited config now ip s.ip_limits).0 ≡ false
      → ctx.user ≡ some user
      → ctx.subscription ≡ some sub
      → (IsRefused next next' × (¬ IsAdmitted)) ⊎ IsAdmitted
  unfolding rate_limit known_user within_quota account
  quota next next' ip user sub from_ip ip_free has_user has_sub =
      elim (Result-cases (service.get_current_usage user.id sub.plan_type s.world)) [
        | inr (e, failing) ↦ inl (
          (ground (arith, failing), ground (arith, failing)),
          λ a. ground (arith, has_user, has_sub, failing, a.has_user, a.has_sub, a.used),
        )
        | inl (stats, used) ↦
            elim (Bool-cases (is_spent (config.limits sub.plan_type) stats.current_count)) [
              | inl spent ↦ inl (
                (ground (arith, used, spent), ground (arith, used, spent)),
                λ a.
                    ground (
                      arith, has_user, has_sub, used, spent, a.has_user, a.has_sub, a.used, a.under,
                    ),
              )
              | inr under ↦ inr (record {
                ip = ip;
                user = user;
                sub = sub;
                stats = stats;
                from_ip = from_ip;
                ip_free = ip_free;
                has_user = has_user;
                has_sub = has_sub;
                used = used;
                under = under;
              })
            ]
      ]

  -- Whether a request passes all the checks is decided, and it is refused only where it does not.
  pub rate_limit_cases :
      (next next' : Handler W) → (IsRefused next next' × (¬ IsAdmitted)) ⊎ IsAdmitted
  unfolding rate_limit known_user within_quota account
  rate_limit_cases next next' = elim (Option-cases (split_host_port r.remote_addr)) [
    | inl bad ↦
        inl ((ground (arith, bad), ground (arith, bad)), λ a. ground (arith, bad, a.from_ip))
    | inr (ip, from_ip) ↦ elim (Bool-cases (is_ip_rate_limited config now ip s.ip_limits).0) [
      | inl full ↦ inl (
        (ground (arith, from_ip, full), ground (arith, from_ip, full)),
        λ a. ground (arith, from_ip, full, a.from_ip, a.ip_free),
      )
      | inr ip_free ↦ elim (Option-cases ctx.user) [
        | inl nobody ↦ inl (
          (ground (arith, from_ip, ip_free, nobody), ground (arith, from_ip, ip_free, nobody)),
          λ a. ground (arith, nobody, a.has_user),
        )
        | inr (user, has_user) ↦ elim (Option-cases ctx.subscription) [
          | inl gone ↦ inl (
            (
              ground (arith, from_ip, ip_free, has_user, gone),
              ground (arith, from_ip, ip_free, has_user, gone),
            ),
            λ a. ground (arith, gone, a.has_sub),
          )
          | inr (sub, has_sub) ↦ quota next next' ip user sub from_ip ip_free has_user has_sub
        ]
      ]
    ]
  ]

  -- A request either passes all the checks of the limiter, or no handler is run for it: the outcome
  -- is the same for any two handlers, and nothing outside the limiter is changed.
  pub rate_limit_guards : (next next' : Handler W) → IsRefused next next' ⊎ IsAdmitted
  rate_limit_guards next next' = elim (rate_limit_cases next next') [
    | inl (refused, denied) ↦ inl refused
    | inr admitted ↦ inr admitted
  ]

  -- For a request that passes, the client is sent exactly what the handler sends: the headers that
  -- the limiter sets afterwards are not among it. The usage is counted up by one call after the
  -- handler, unless the handler has marked its answer as a cache hit.
  pub rate_limit_passes :
      (next : Handler W) (a : IsAdmitted)
      → let (out, world) = next r ctx w s.world in
        ((run next).0.sent ≡ out.sent)
        × ((run next).1.world ≡ (
            if get_header "X-Cache" out.header == "HIT"
            then world
            else (service.increment_usage a.user.id world).1))
  unfolding rate_limit known_user within_quota account set
  rate_limit_passes next a =
      elim (Bool-cases (get_header "X-Cache" (next r ctx w s.world).0.header == "HIT")) [
        | inl hit ↦ (
          ground (arith, a.from_ip, a.ip_free, a.has_user, a.has_sub, a.used, a.under, hit),
          ground (arith, a.from_ip, a.ip_free, a.has_user, a.has_sub, a.used, a.under, hit),
        )
        | inr miss ↦ (
          ground (arith, a.from_ip, a.ip_free, a.has_user, a.has_sub, a.used, a.under, miss),
          ground (arith, a.from_ip, a.ip_free, a.has_user, a.has_sub, a.used, a.under, miss),
        )
      ]

-- The quotas of the shipped configuration: 1000 requests a period for the free plan, 300000 for the
-- pro plan, no bound for the enterprise plan, and none at all for a plan of another name.
shipped_quotas :
    (plan : SubscriptionPlan) (used : ℕ)
    → plan ≢ free_plan
    → plan ≢ pro_plan
    → plan ≢ enterprise_plan
    → (is_spent (new_rate_limit_config.limits free_plan) used ≡ leb 1000 used)
      × (is_spent (new_rate_limit_config.limits pro_plan) used ≡ leb 300_000 used)
      × (is_spent (new_rate_limit_config.limits enterprise_plan) used ≡ false)
      × (is_spent (new_rate_limit_config.limits plan) used ≡ true)
unfolding is_spent new_rate_limit_config
shipped_quotas plan used nf np ne = (
  refl,
  refl,
  refl,
  ground (arith, eq_iff plan free_plan, eq_iff plan pro_plan, eq_iff plan enterprise_plan),
)
