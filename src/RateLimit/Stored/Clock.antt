-- ===== src/RateLimit/Stored/Clock.antt =====
-- Time that passes while requests are under way.
use landmark_api.Common.{ℕ, ◌≤◌, ◌≡◌, refl, sym, ◌∙◌, String, false, Option}
use mathlib.Core.Path.{subst}
use landmark_api.Common.Int.{ℤ}
use landmark_api.Calendar.{Time, stamp, before, IsDate}
use landmark_api.Models.{Uuid, User, Subscription, ApiUsage, RateLimitConfig}
use landmark_api.Database.{Table}
use landmark_api.Usage.Period.{current_period-later}
use landmark_api.RateLimit.Races.{Traffic, Step}
use landmark_api.RateLimit.Stored.{Stored, usage_service, recorded, IsBilled}

module _ {SS US : Type 0} (subs : Table SS Subscription) (usages : Table US ApiUsage)
    (uuid_string : Uuid → String) where
  abbrev pub at_time : Time → Stored SS US → Stored SS US
  at_time later w = record w { clock = later }

  -- A billing period is that of the user's subscriptions until it is over.
  IsBilled-later :
      (uid : Uuid) (p : Time × Time) (w : Stored SS US) (later : Time)
      → IsDate w.clock
      → IsDate later
      → stamp w.clock ≤ stamp later
      → before p.1 later ≡ false
      → IsBilled subs usages uuid_string uid p w
      → IsBilled subs usages uuid_string uid p (at_time later w)
  IsBilled-later uid p w later dn dl after_now open_still billed = record {
    not_over = open_still;
    periods = λ x m mine.
        let period = billed.periods x m mine in
        current_period-later w.clock later x.start_date x.end_date dn dl after_now
          (subst (λ q. before q.1 later ≡ false) (sym period) open_still)
        ∙ period;
    keyed = billed.keyed;
  }

  -- Time that passes within the billing period is a step that leaves the usage alone.
  pub tick :
      (config : RateLimitConfig) (commit : SS × US → Option String) (fresh : US → ℕ)
      (split_host_port : String → Option String) (show_int : ℤ → String) (show_unix : Time → String)
      (user : User) (sub : Subscription) (p : Time × Time) (k : ℕ) (t : Traffic (Stored SS US))
      (later : Time)
      → IsDate t.world.clock
      → IsDate later
      → stamp t.world.clock ≤ stamp later
      → before p.1 later ≡ false
      → Step
          (usage_service subs usages uuid_string config commit fresh)
          config
          split_host_port
          show_int
          show_unix
          user
          sub
          (IsBilled subs usages uuid_string user.id p)
          (recorded subs usages uuid_string user.id p)
          k
          t
          (record t { world = at_time later t.world })
  tick config commit fresh split_host_port show_int show_unix user sub p k t later dn dl after_now
        open_still =
      Step.other (at_time later t.world)
        (IsBilled-later user.id p t.world later dn dl after_now open_still) refl refl
