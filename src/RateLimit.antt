-- ===== src/RateLimit.antt =====
-- internal/middleware/ratelimit.go: the limit on bursts from one IP address and the quota of the
-- plan. The usage service is a parameter, an interface that `Usage` implements.
pub mod Bursts
pub mod Quota
pub mod Races
pub mod Stored
use landmark_api.Common.{
  ℕ, ◌+◌, String, Bool, true, false, Option, none, some, Result, ok, err, ltb, if◌then◌else◌, ◌&&◌,
  ◌==◌,
}
use landmark_api.Common.Int.{ℤ, pos, minus_count, is_nonneg, le_count}
use landmark_api.Common.Maps.{Map, lookup, insert}
use landmark_api.Calendar.{Time}
use landmark_api.Errors.{Error}
use landmark_api.Models.{Uuid, SubscriptionPlan, RateLimitConfig, User, Subscription}
use landmark_api.Http.{Request, Context, Writer, Handler, set, http_error}
use landmark_api.Http.Fields.{get_header}
use landmark_api.Usage.{UsageStats}

-- Instants are nanoseconds of the monotonic clock.
pub record IpLimit : Type 0 where
  pub count : ℕ
  pub last_seen : ℕ

abbrev pub minute : ℕ
minute = 60_000_000_000

-- One round of isIPRateLimited for the entry of the address.
abbrev pub touch : ℕ → ℕ → Option IpLimit → Bool × IpLimit
touch burst now none = (false, record { count = 1; last_seen = now })
touch burst now (some l) =
    if ltb (l.last_seen + minute) now
    then (false, record { count = 1; last_seen = now })
    else (ltb burst (l.count + 1), record { count = l.count + 1; last_seen = now })

unfoldable pub is_ip_rate_limited : RateLimitConfig → ℕ → String → Map IpLimit → Bool × Map IpLimit
is_ip_rate_limited config now ip limits =
    let (limited, l) = touch config.ip_burst_limit now (lookup ip limits) in
    (limited, insert ip l limits)

unfoldable pub get_limit : RateLimitConfig → SubscriptionPlan → ℤ
get_limit config plan = config.limits plan

-- services.APIUsageService over a world `W`.
pub record UsageService (W : Type 0) : Type 0 where
  pub get_current_usage : Uuid → SubscriptionPlan → W → Result Error UsageStats
  pub increment_usage : Uuid → W → Option Error × W

-- The limiter's own state beside the world.
pub record Limited (W : Type 0) : Type 0 where
  pub ip_limits : Map IpLimit
  pub world : W

-- `limit >= 0 && usageStats.CurrentCount >= limit`
unfoldable pub is_spent : ℤ → ℕ → Bool
is_spent limit used = is_nonneg limit && le_count limit used

module _ {W : Type 0} (service : UsageService W) (config : RateLimitConfig)
    (split_host_port : String → Option String) (show_int : ℤ → String)
    (show_unix : Time → String) where
  abbrev pub set_rate_limit_headers : ℤ → ℤ → Time → Writer → Writer
  set_rate_limit_headers limit remaining reset w = set "X-RateLimit-Reset" (show_unix reset) (
      set "X-RateLimit-Remaining" (show_int remaining) (set "X-RateLimit-Limit" (show_int limit) w))

  -- What follows the inner handler.
  unfoldable pub account : Uuid → ℤ → UsageStats → Writer × W → Writer × W
  account uid limit stats (w, world) =
      if get_header "X-Cache" w.header == "HIT"
      then (
        set_rate_limit_headers limit (minus_count limit stats.current_count) stats.period_end w,
        world,
      )
      else (
        set_rate_limit_headers limit (minus_count limit (stats.current_count + 1)) stats.period_end
            w,
        (service.increment_usage uid world).1,
      )

  -- From the usage statistics on.
  unfoldable pub within_quota : Handler W → User → Subscription → Handler W
  unfolding account
  within_quota next user sub r ctx w world =
      elim (service.get_current_usage user.id sub.plan_type world) [
        | err e ↦ (http_error "Failed to get usage statistics" 500 w, world)
        | ok stats ↦
            let limit = config.limits sub.plan_type in
            if is_spent limit stats.current_count
            then (
              http_error "Rate limit exceeded. Please upgrade your subscription for higher limits."
                  429 (set_rate_limit_headers limit (pos 0) stats.period_end w),
              world,
            )
            else account user.id limit stats (next r ctx w world)
      ]

  -- The checks of the context.
  unfoldable pub known_user : Handler W → Handler W
  unfolding within_quota
  known_user next r ctx w world = elim ctx.user [
    | none ↦ (http_error "Unauthorized" 401 w, world)
    | some user ↦ elim ctx.subscription [
      | none ↦ (http_error "Subscription not found" 403 w, world)
      | some sub ↦ within_quota next user sub r ctx w world
    ]
  ]

  unfoldable pub rate_limit : ℕ → Handler W → Handler (Limited W)
  unfolding known_user is_ip_rate_limited
  rate_limit now next r ctx w s = elim (split_host_port r.remote_addr) [
    | none ↦ (http_error "Invalid IP address" 400 w, s)
    | some ip ↦
        let (limited, ips) = is_ip_rate_limited config now ip s.ip_limits in
        let passed = known_user next r ctx w s.world in
        if limited
        then (
          http_error "IP rate limit exceeded. Please try again later." 429 w,
          record s { ip_limits = ips },
        )
        else (passed.0, record { ip_limits = ips; world = passed.1 })
  ]
