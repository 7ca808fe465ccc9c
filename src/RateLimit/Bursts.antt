-- ===== src/RateLimit/Bursts.antt =====
-- The limiter of IP addresses against the history of requests.
use landmark_api.Common.{
  ℕ, ◌+◌, ◌≤◌, String, ◌≡◌, refl, Bool, true, false, Option, none, some, List, [], ◌∷◌, ltb,
  if◌then◌else◌, arith, ◌==◌, eq_iff, inl, inr, Bool-cases, ◌∙◌,
}
use landmark_api.Common.Maps.{Map, lookup, lookup-insert, lookup-nil}
use landmark_api.Models.{RateLimitConfig, new_rate_limit_config}
use landmark_api.RateLimit.{IpLimit, minute, touch, is_ip_rate_limited}

-- Requests by address and instant, the newest first.
abbrev pub History : Type 0
History = List (String × ℕ)

-- The instants at which an address was seen.
abbrev pub instants : String → History → List ℕ
instants ip [] = []
instants ip ((j, t) ∷ h) = let rest = instants ip h in if j == ip then t ∷ rest else rest

-- The length of the burst that ends with a request at `t`, after requests at `ts`: a request more
-- than a minute after the one before begins a new burst.
abbrev pub burst : ℕ → List ℕ → ℕ
burst t [] = 1
burst t (u ∷ ts) = let earlier = burst u ts in if ltb (u + minute) t then 1 else earlier + 1

module _ (config : RateLimitConfig) where
  -- The limiter's map after the requests of a history.
  pub limits_after : History → Map IpLimit
  limits_after [] = []
  limits_after ((ip, t) ∷ h) = (is_ip_rate_limited config t ip (limits_after h)).1

abbrev pub tracked : List ℕ → Option IpLimit
tracked [] = none
tracked (t ∷ ts) = some (record { count = burst t ts; last_seen = t })

-- What the answer should be by the history alone: a request that begins a burst passes, any other
-- is limited if the burst with it is longer than the limit.
abbrev pub expected : ℕ → ℕ → List ℕ → Bool
expected limit now [] = false
expected limit now (u ∷ ts) = if ltb (u + minute) now then false else ltb limit (burst now (u ∷ ts))

module _ (config : RateLimitConfig) where
  touch-tracked :
      (now : ℕ) (ts : List ℕ)
      → touch config.ip_burst_limit now (tracked ts)
        ≡ (expected config.ip_burst_limit now ts, record { count = burst now ts; last_seen = now })
  touch-tracked now [] = refl
  touch-tracked now (u ∷ ts) = elim (Bool-cases (ltb (u + minute) now)) [
    | inl late ↦ rw late
    | inr soon ↦ rw soon
  ]

  limits_after-tracked :
      (ip : String) (h : History) → lookup ip (limits_after config h) ≡ tracked (instants ip h)
  unfolding limits_after is_ip_rate_limited
  limits_after-tracked ip [] = lookup-nil ip
  limits_after-tracked ip ((j, t) ∷ h) = rw lookup-insert (elim (Bool-cases (j == ip)) [
    | inr other ↦ rw other (limits_after-tracked ip h)
    | inl same ↦ rw same (
        rw ((eq_iff j ip).0 same)
          (rw (limits_after-tracked ip h) (rw (touch-tracked t (instants ip h)) refl)))
  ])

  -- After any history of requests from any addresses, a request is limited exactly when it goes on
  -- a burst of its own address and the burst with it is longer than the limit. The length of a
  -- burst counts the limited requests too.
  pub is_ip_rate_limited-expected :
      (now : ℕ) (ip : String) (h : History)
      → (is_ip_rate_limited config now ip (limits_after config h)).0
        ≡ expected config.ip_burst_limit now (instants ip h)
  unfolding is_ip_rate_limited
  is_ip_rate_limited-expected now ip h = rw limits_after-tracked (rw touch-tracked refl)

-- With the configuration that the server starts with, every request of an address that comes
-- within a minute of its last one is limited, also where that one was limited itself.
pub shipped-always_limited :
    (now last : ℕ) (ip : String) (h : History) (ts : List ℕ)
    → instants ip h ≡ last ∷ ts
    → now ≤ last + minute
    → (is_ip_rate_limited new_rate_limit_config now ip (limits_after new_rate_limit_config h)).0
      ≡ true
unfolding new_rate_limit_config
shipped-always_limited now last ip h ts e soon =
    is_ip_rate_limited-expected new_rate_limit_config now ip h ∙ rw e (ground arith)
