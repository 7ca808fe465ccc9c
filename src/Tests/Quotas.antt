-- ===== src/Tests/Quotas.antt =====
-- The usage service over tables in memory.
use landmark_api.Common.{
  inl, ℕ, String, ◌+◌, ◌≤◌, ◌<◌, ◌≡◌, refl, Bool, true, false, Option, none, some, List, [], ◌∷◌,
  arith, ok, count, eqb, if◌then◌else◌,
}
use landmark_api.Common.Int.{pos}
use landmark_api.Calendar.{Time, stamp, is_zero, IsDate, days_in}
use landmark_api.Models.{Subscription, ApiUsage, new_rate_limit_config}
use landmark_api.Http.{new_writer}
use landmark_api.Subscriptions.{get_active_by_user_id, is_active}
use landmark_api.Usage.{
  UsageStats, current_period, in_period, find_usage, get_current_usage, first_subscription,
  increment_usage, increment_in_tx, save_period, count_request, roll,
}
use landmark_api.Usage.Records.{has_id}
use landmark_api.RateLimit.{account, is_spent}
use landmark_api.RateLimit.Races.{Step, Reach}
use landmark_api.RateLimit.Stored.{Stored, usage_service, recorded, IsBilled}
use landmark_api.RateLimit.Stored.Clock.{at_time, tick}
use landmark_api.Tests.Billing.{today-IsDate}
use landmark_api.RateLimit.Stored.Quota.{recorded-within_quota}
use landmark_api.RateLimit.Stored.Overrun.{Succeeds, IsSubscribed, recorded-overrun}
use landmark_api.RateLimit.Stored.Unseen.{increment_usage-unseen}
use landmark_api.Tests.Fixtures.{
  today, last_spring, next_year, alice, alice_free, subs, subs_laws, usages, usages_laws,
  uuid_string,
}
use landmark_api.Tests.Requests.{split_host_port, show_int, show_unix}

-- An id above all ids of the table.
new_id : List ApiUsage → ℕ
new_id [] = 1
new_id (u ∷ us) = u.id + 1 + new_id us

above-absent : (us : List ApiUsage) (n : ℕ) → new_id us ≤ n → count (has_id n) us ≡ 0
unfolding new_id
above-absent [] n h = refl
above-absent (u ∷ us) n h = ground (arith, above-absent us n)

new_id-absent : (us : List ApiUsage) → count (has_id (new_id us)) us ≡ 0
new_id-absent us = above-absent us (new_id us) (omega arith)

abbrev period : Time × Time
period = (last_spring, next_year)

abbrev yearly : Subscription
yearly = record alice_free { end_date = next_year }

abbrev used : ℕ → ApiUsage
used n = record {
  id = 1;
  user_id = "alice";
  request_count = n;
  period_start = last_spring;
  period_end = next_year;
}

abbrev world : ℕ → Stored (List Subscription) (List ApiUsage)
world n = record { clock = today; subs = yearly ∷ []; usages = used n ∷ [] }

billed : IsBilled subs usages uuid_string alice.id period (world 999)
unfolding stamp current_period in_period
billed = record {
  not_over = refl;
  periods = λ x m mine. ground arith;
  keyed = record { ids = λ id. ground arith; periods = omega arith };
}

abbrev commit : List Subscription × List ApiUsage → Option String
commit db = none

abbrev read : UsageStats
read = record {
  current_count = 999;
  limit = pos 1000;
  remaining_requests = pos 1;
  period_end = next_year;
}

abbrev next_week : Time
next_week = record today { day = 22 }

next_week-IsDate : IsDate next_week
unfolding days_in
next_week-IsDate = record {
  month_pos = omega arith;
  month_le = omega arith;
  day_pos = omega arith;
  day_le = omega arith;
  nanos_lt = omega arith;
}

-- The thousandth request is let through, and a week passes before it is counted.
last_request :
    Reach
      (usage_service subs usages uuid_string new_rate_limit_config commit new_id)
      new_rate_limit_config
      split_host_port
      show_int
      show_unix
      alice
      yearly
      (IsBilled subs usages uuid_string alice.id period)
      (recorded subs usages uuid_string alice.id period)
      1
      (record { world = world 999; flights = [] })
      (record { world = at_time subs usages uuid_string next_week (world 1000); flights = [] })
unfolding is_spent new_rate_limit_config account landmark_api.Http.Fields.get_header
    landmark_api.Common.Maps.lookup get_current_usage find_usage in_period stamp current_period
    get_active_by_user_id is_active increment_usage increment_in_tx first_subscription save_period
    count_request is_zero
last_request =
    Reach.next
      (Reach.next (Reach.next Reach.here (Step.enter read (omega arith) refl refl refl)) (
        tick subs usages uuid_string new_rate_limit_config commit new_id split_host_port show_int
          show_unix alice yearly period 1 (record { world = world 999; flights = read ∷ [] })
          next_week today-IsDate next_week-IsDate (omega arith) refl))
      (Step.leave read [] [] new_writer refl refl)

recorded-within_quota_example :
    recorded subs usages uuid_string alice.id period
      (at_time subs usages uuid_string next_week (world 1000))
    ≤ 1000
unfolding new_rate_limit_config in_period stamp
recorded-within_quota_example =
    recorded-within_quota subs usages uuid_string subs_laws refl usages_laws refl
      new_rate_limit_config commit new_id new_id-absent split_host_port show_int show_unix alice
      yearly period refl (omega arith) billed last_request

subs_succeed : Succeeds subs
subs_succeed = record {
  firsts = λ s q. (_, refl);
  creates = λ s r. (_, refl);
  saves = λ s r. (_, refl);
}

usages_succeed : Succeeds usages
usages_succeed = record {
  firsts = λ s q. (_, refl);
  creates = λ s r. (_, refl);
  saves = λ s r. (_, refl);
}

subscribed :
    IsSubscribed subs usages uuid_string subs_laws refl usages_laws refl alice.id period (world 999)
subscribed = record { billed = billed; plan = yearly; stored = (inl refl, refl) }

-- Two requests are let through by the same count of 999.
recorded-overrun_example :
    (w' : Stored (List Subscription) (List ApiUsage)) × Reach
      (usage_service subs usages uuid_string new_rate_limit_config commit new_id)
      new_rate_limit_config
      split_host_port
      show_int
      show_unix
      alice
      yearly
      (IsSubscribed subs usages uuid_string subs_laws refl usages_laws refl alice.id period)
      (recorded subs usages uuid_string alice.id period)
      2
      (record { world = world 999; flights = [] })
      (record { world = w'; flights = [] })
    × (recorded subs usages uuid_string alice.id period w' + 1 ≡ 1000 + 2)
unfolding is_spent new_rate_limit_config account landmark_api.Http.Fields.get_header
    landmark_api.Common.Maps.lookup get_current_usage find_usage in_period stamp current_period
    get_active_by_user_id is_active increment_usage increment_in_tx first_subscription save_period
    count_request is_zero
recorded-overrun_example =
    recorded-overrun subs usages uuid_string subs_laws refl usages_laws refl subs_succeed
      usages_succeed new_rate_limit_config commit (λ db. refl) new_id new_id-absent split_host_port
      show_int show_unix alice yearly period 2 1000 (world 999) read refl refl subscribed refl

-- A subscription that was cancelled before, whose period goes by months.
abbrev cancelled : Subscription
cancelled = record alice_free { id = 9; status = "canceled"; end_date = last_spring }

abbrev shadowed : Stored (List Subscription) (List ApiUsage)
shadowed = record { clock = today; subs = cancelled ∷ yearly ∷ []; usages = used 999 ∷ [] }

increment_usage-unseen_example :
    recorded subs usages uuid_string alice.id period
      ((usage_service subs usages uuid_string new_rate_limit_config commit new_id).increment_usage
        alice.id shadowed).1
    ≡ recorded subs usages uuid_string alice.id period shadowed
unfolding current_period roll stamp in_period first_subscription get_active_by_user_id is_active
    is_zero landmark_api.Calendar.add_month
increment_usage-unseen_example =
    increment_usage-unseen subs usages uuid_string usages_laws refl new_rate_limit_config commit
      new_id alice.id shadowed cancelled yearly refl refl (λ id. ground arith) refl
