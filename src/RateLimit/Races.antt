-- ===== src/RateLimit/Races.antt =====
-- Requests of one user that are under way at the same time. The limiter reads the usage before the
-- handler runs and counts the request after it; each call of the usage service is one step here.
use landmark_api.Common.{
  ℕ, zero, suc, ◌+◌, ◌≤◌, ◌<◌, ◌≡◌, ◌⊎◌, refl, sym, ap, String, Bool, true, false, Option, some,
  List, [], ◌∷◌, ◌++◌, Result, ok, length, length-append, replicate, length-replicate, Bool-cases,
  inl, inr, arith, ◌==◌, if◌then◌else◌, leb,
}
use landmark_api.Common.Int.{ℤ, pos}
use landmark_api.Calendar.{Time}
use landmark_api.Models.{RateLimitConfig, User, Subscription}
use landmark_api.Http.{Request, Context, Writer, Handler, new_writer}
use landmark_api.Http.Fields.{get_header}
use landmark_api.Usage.{UsageStats}
use landmark_api.RateLimit.{UsageService, within_quota, account, is_spent}

-- The world, and what each request under way has read of the usage.
pub record Traffic (W : Type 0) : Type 0 where
  pub world : W
  pub flights : List UsageStats

module _ {W : Type 0} (service : UsageService W) (config : RateLimitConfig)
    (split_host_port : String → Option String) (show_int : ℤ → String) (show_unix : Time → String)
    (user : User) (sub : Subscription) (Good : W → Type 0) (used : W → ℕ) where
  -- In a good world `used` is the usage of the user that the service reads, and a call that counts
  -- a request adds one to it at most and leaves a good world.
  pub record UsageLaws : Type 0 where
    pub reads :
        (w : W) (stats : UsageStats)
        → Good w
        → service.get_current_usage user.id sub.plan_type w ≡ ok stats
        → stats.current_count ≡ used w
    pub counts : (w : W) → Good w → used (service.increment_usage user.id w).1 ≤ used w + 1
    pub keeps : (w : W) → Good w → Good (service.increment_usage user.id w).1

  -- The world after the part of the limiter that follows the handler.
  abbrev pub accounted : UsageStats → Writer → W → W
  accounted stats v w =
      (account service config split_host_port show_int show_unix user.id
        (config.limits sub.plan_type) stats (v, w)).1

  -- A request passes the check of the quota, or it is accounted for after its handler; `k` requests
  -- are under way at most. All else leaves the usage of the user alone, and a good world good.
  pub data Step (k : ℕ) (t u : Traffic W) : Type 0 where
    enter :
        (stats : UsageStats)
        → length t.flights < k
        → service.get_current_usage user.id sub.plan_type t.world ≡ ok stats
        → is_spent (config.limits sub.plan_type) stats.current_count ≡ false
        → u ≡ record t { flights = stats ∷ t.flights }
        → Step k t u
    leave :
        (stats : UsageStats) (earlier later : List UsageStats) (v : Writer)
        → t.flights ≡ earlier ++ stats ∷ later
        → u ≡ record { world = accounted stats v t.world; flights = earlier ++ later }
        → Step k t u
    other :
        (w : W)
        → (Good t.world → Good w)
        → used w ≡ used t.world
        → u ≡ record t { world = w }
        → Step k t u

  pub data Reach (k : ℕ) (t : Traffic W) : Traffic W → Type 0 where
    here : Reach k t t
    next : {u v : Traffic W} → Reach k t u → Step k u v → Reach k t v

  -- A request that the limiter handles alone is an entry, what the handler does, and an account.
  pub within_quota-Reach :
      (k : ℕ) (t : Traffic W) (next_handler : Handler W) (stats : UsageStats) (r : Request)
      (ctx : Context) (v : Writer)
      → length t.flights < k
      → service.get_current_usage user.id sub.plan_type t.world ≡ ok stats
      → is_spent (config.limits sub.plan_type) stats.current_count ≡ false
      → (Good t.world → Good (next_handler r ctx v t.world).1)
      → used (next_handler r ctx v t.world).1 ≡ used t.world
      → Reach k t (record t {
        world =
            (within_quota service config split_host_port show_int show_unix next_handler user sub r
              ctx v t.world).1;
      })
  unfolding within_quota
  within_quota-Reach k t next_handler stats r ctx v room read under good quiet =
      let (v', w') = next_handler r ctx v t.world in
      let result =
        within_quota service config split_host_port show_int show_unix next_handler user sub r ctx v
          t.world in
      let after : result.1 ≡ accounted stats v' w' = rw (read, within_quota) (rw under refl) in
      Reach.next
        (Reach.next (Reach.next Reach.here (Step.enter stats room read under refl))
          (Step.other w' good quiet refl))
        (Step.leave stats [] t.flights v' refl (ap (λ x. record t { world = x }) after))

  module _ (laws : UsageLaws) where
    accounted-cases :
        (stats : UsageStats) (v : Writer) (w : W)
        → (accounted stats v w ≡ w) ⊎ (accounted stats v w ≡ (service.increment_usage user.id w).1)
    unfolding account
    accounted-cases stats v w = elim (Bool-cases (get_header "X-Cache" v.header == "HIT")) [
      | inl hit ↦ inl (ground (arith, hit))
      | inr miss ↦ inr (ground (arith, miss))
    ]

    accounted-le :
        (stats : UsageStats) (v : Writer) (w : W) → Good w → used (accounted stats v w) ≤ used w + 1
    accounted-le stats v w good = elim (accounted-cases stats v w) [
      | inl same ↦ rw same (omega arith)
      | inr counted ↦ rw counted (laws.counts w good)
    ]

    accounted-Good : (stats : UsageStats) (v : Writer) (w : W) → Good w → Good (accounted stats v w)
    accounted-Good stats v w good = elim (accounted-cases stats v w) [
      | inl same ↦ rw same good
      | inr counted ↦ rw counted (laws.keeps w good)
    ]

    Step-Good : {k : ℕ} {t u : Traffic W} → Step k t u → Good t.world → Good u.world
    Step-Good (enter stats room read under e) good = rw e good
    Step-Good {k} {t} (leave stats earlier later v flights e) good =
        rw e (accounted-Good stats v t.world good)
    Step-Good (other w keeps same e) good = rw e (keeps good)

    Reach-Good : {k : ℕ} {t u : Traffic W} → Reach k t u → Good t.world → Good u.world
    Reach-Good here good = good
    Reach-Good (next r st) good = Step-Good st (Reach-Good r good)

    Step-bound :
        (k n : ℕ) (t u : Traffic W)
        → config.limits sub.plan_type ≡ pos n
        → Good t.world
        → Step k t u
        → used t.world + length t.flights < n + k
        → used u.world + length u.flights < n + k
    unfolding is_spent
    Step-bound k n t u finite good (enter stats room read under e) h =
        rw e (ground (arith, laws.reads t.world stats good read, finite))
    Step-bound k n t u finite good (leave stats earlier later v flights e) h = rw e (
        omega (
          arith,
          accounted-le stats v t.world good,
          ap length flights,
          length-append {0} earlier later,
          length-append {0} earlier (stats ∷ later),
        ))
    Step-bound k n t u finite good (other w keeps same e) h = rw e (omega arith)

    Reach-bound :
        {k n : ℕ} {t u : Traffic W}
        → config.limits sub.plan_type ≡ pos n
        → Good t.world
        → Reach k t u
        → used t.world + length t.flights < n + k
        → used u.world + length u.flights < n + k
    Reach-bound finite good here h = h
    Reach-bound {k} {n} finite good (next {u} {v} r st) h =
        Step-bound k n u v finite (Reach-Good r good) st (Reach-bound finite good r h)

    -- With a finite quota, and no more than `k` requests of the user under way at any time, the
    -- user's usage stays below the quota and `k` together, whatever the order of the steps is: one
    -- request after the other never exceeds the quota. The usage is within the quota at first, in a
    -- good world.
    pub Reach-within_quota :
        {k n : ℕ} {w : W} {t : Traffic W}
        → config.limits sub.plan_type ≡ pos n
        → 1 ≤ k
        → used w ≤ n
        → Good w
        → Reach k (record { world = w; flights = [] }) t
        → used t.world < n + k
    Reach-within_quota finite some_flight within good r =
        omega (arith, Reach-bound finite good r (omega arith))

    entries :
        (k j : ℕ) (w : W) (stats : UsageStats)
        → j ≤ k
        → service.get_current_usage user.id sub.plan_type w ≡ ok stats
        → is_spent (config.limits sub.plan_type) stats.current_count ≡ false
        → Reach k
            (record { world = w; flights = [] })
            (record { world = w; flights = replicate j stats })
    entries k zero w stats room read under = Reach.here
    entries k (suc j) w stats room read under =
        Reach.next (entries k j w stats (omega arith) read under)
          (Step.enter stats (omega (arith, length-replicate {0} j stats)) read under refl)

    exits :
        (k j : ℕ) (t : Traffic W) (w : W) (stats : UsageStats)
        → ((w : W) → Good w → used (service.increment_usage user.id w).1 ≡ used w + 1)
        → Good w
        → Reach k t (record { world = w; flights = replicate j stats })
        → (w' : W) × Reach k t (record { world = w'; flights = [] }) × (used w' ≡ used w + j)
    unfolding account get_header landmark_api.Common.Maps.lookup
    exits k zero t w stats exact good r = (w, r, omega arith)
    exits k (suc j) t w stats exact good r =
        let (w', r', e) =
          exits k j t (accounted stats new_writer w) stats exact
            (accounted-Good stats new_writer w good)
            (Reach.next r (Step.leave stats [] (replicate j stats) new_writer refl refl)) in
        (w', r', omega (arith, e, exact w good))

    -- The bound is reached: where each call that counts a request adds one, and the usage is one
    -- below the quota in a good world, there is an order of the steps of `k` requests after which all of them were
    -- let through and the usage is the quota and `k` together, less one.
    pub quota_overrun :
        (k n : ℕ) (w : W) (stats : UsageStats)
        → config.limits sub.plan_type ≡ pos n
        → used w + 1 ≡ n
        → Good w
        → service.get_current_usage user.id sub.plan_type w ≡ ok stats
        → ((w : W) → Good w → used (service.increment_usage user.id w).1 ≡ used w + 1)
        → (w' : W) × Reach k
            (record { world = w; flights = [] })
            (record { world = w'; flights = [] })
          × (used w' + 1 ≡ n + k)
    unfolding is_spent
    quota_overrun k n w stats finite last good read exact =
        let under : is_spent (config.limits sub.plan_type) stats.current_count ≡ false =
          ground (arith, finite, laws.reads w stats good read) in
        let (w', r, e) =
          exits k k _ w stats exact good (entries k k w stats (omega arith) read under) in
        (w', r, omega arith)
