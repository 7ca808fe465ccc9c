-- ===== src/Tests/Billing.antt =====
-- Billing periods, the counting of requests and Stripe's webhooks at concrete inputs.
use landmark_api.Common.{
  ◌+◌, ◌≤◌, ◌<◌, String, ◌≡◌, refl, true, false, none, some, List, [], ◌∷◌, ok, inl, arith,
  if◌then◌else◌, count, Occurs,
}
use landmark_api.Calendar.{Time, stamp, is_zero, zero_time, IsDate, days_in, is_leap}
use landmark_api.Models.{User, Subscription, SubscriptionPlan, ApiKey, ApiUsage}
use landmark_api.Subscriptions
use landmark_api.Users
use landmark_api.Auth.{Db}
use landmark_api.Usage.{
  current_period, roll, count_request, in_period, no_usage, save_period, moved,
}
use landmark_api.Usage.Period.{IsPeriod, current_period-IsPeriod}
use landmark_api.Usage.Counting.{requests, same_id, requests-count_request}
use landmark_api.Usage.Expiry.{save_period-expires}
use landmark_api.Stripe.{
  get_plan_type_from_price_id, handle_subscription_created, handle_subscription_updated,
  plan_of_items, plan_of_price, of_stripe, provide,
}
use landmark_api.Stripe.Updates.{handle_subscription_updated-nothing}
use landmark_api.Stripe.Creation.{IsProvided, handle_subscription_created-IsProvided}
use landmark_api.Tests.Fixtures.{
  today, last_spring, alice_free, users, users_laws, subs, subs_laws, keys, keys_laws, usages,
  usages_laws, db, fresh, uuid_string, prices, paid, stored_by,
}

pub today-IsDate : IsDate today
unfolding days_in is_leap
today-IsDate = record {
  month_pos = omega arith;
  month_le = omega arith;
  day_pos = omega arith;
  day_le = omega arith;
  nanos_lt = omega arith;
}

zero_time-IsDate : IsDate zero_time
unfolding days_in is_leap
zero_time-IsDate = record {
  month_pos = omega arith;
  month_le = omega arith;
  day_pos = omega arith;
  day_le = omega arith;
  nanos_lt = omega arith;
}

last_spring-IsDate : IsDate last_spring
unfolding days_in is_leap
last_spring-IsDate = record {
  month_pos = omega arith;
  month_le = omega arith;
  day_pos = omega arith;
  day_le = omega arith;
  nanos_lt = omega arith;
}

current_period-IsPeriod_example :
    IsPeriod today last_spring last_spring (current_period today last_spring last_spring)
current_period-IsPeriod_example =
    current_period-IsPeriod today last_spring last_spring today-IsDate last_spring-IsDate

abbrev period : Time × Time
period = (last_spring, today)

abbrev used : ApiUsage
used = record {
  id = 5;
  user_id = "alice";
  request_count = 41;
  period_start = last_spring;
  period_end = today;
}

abbrev used_again : ApiUsage
used_again = record used { request_count = 42 }

unique : (u : ApiUsage) → Occurs u (used ∷ []) → count (same_id u) (used ∷ []) ≤ 1
unique u m = ground arith

counted : count_request usages uuid_string 6 1 period (used ∷ []) ≡ ok (used_again ∷ [])
unfolding count_request in_period stamp
counted = refl

requests-count_request_example :
    requests (in_period "alice" period) (used_again ∷ [])
    ≡ requests (in_period "alice" period) (used ∷ [])
      + (if in_period "alice" period (no_usage "alice" period) then 1 else 0)
requests-count_request_example =
    requests-count_request usages usages_laws refl uuid_string 6 1 period (used ∷ [])
      (used_again ∷ []) "alice" period unique counted

-- A time shortly after the zero value, so that the months up to it are few.
abbrev early : Time
early = record { year = 1; month = 3; day = 10; nanos = 0 }

early-IsDate : IsDate early
unfolding days_in is_leap
early-IsDate = record {
  month_pos = omega arith;
  month_le = omega arith;
  day_pos = omega arith;
  day_le = omega arith;
  nanos_lt = omega arith;
}

abbrev early_period : Time × Time
early_period = current_period early last_spring zero_time

early-active : Subscriptions.is_active early 1 alice_free ≡ true
unfolding Subscriptions.is_active is_zero
early-active = refl

early-over : stamp early_period.1 ≤ stamp today
unfolding stamp current_period roll landmark_api.Calendar.add_month
early-over = omega arith

early-saved :
    save_period usages uuid_string subs early alice_free early_period db.subs
    ≡ ok (moved early early_period alice_free ∷ [])
unfolding save_period stamp
early-saved = refl

early-started : stamp zero_time < stamp early
unfolding stamp
early-started = omega arith

zero-is_zero : is_zero zero_time ≡ true
unfolding is_zero
zero-is_zero = refl

save_period-expires_example :
    (Subscriptions.is_active today 1 alice_free ≡ true)
    × Occurs (moved early early_period alice_free) (moved early early_period alice_free ∷ [])
    × (Subscriptions.is_active today 1 (moved early early_period alice_free) ≡ false)
save_period-expires_example =
    save_period-expires subs subs_laws usages uuid_string early today 1 alice_free db.subs
      (moved early early_period alice_free ∷ []) early-IsDate early-started (inl refl) refl
      early-active zero-is_zero zero_time-IsDate early-over early-saved

handled :
    handle_subscription_updated users subs keys uuid_string uuid_string prices today (paid "p1") db
    ≡ some db
unfolding handle_subscription_updated Users.get_by_stripe_customer_id Subscriptions.update
handled = refl

handle_subscription_updated-nothing_example :
    (db.users ≡ db.users) × (db.subs ≡ db.subs) × (db.keys ≡ db.keys)
handle_subscription_updated-nothing_example =
    handle_subscription_updated-nothing users subs keys subs_laws uuid_string uuid_string prices
      today (paid "p1") db db refl handled

-- Alice has let her subscription end; she pays for a month.
abbrev unsubscribed : Db (List User) (List Subscription) (List ApiKey)
unsubscribed = record db { subs = [] }

abbrev subscribed : Db (List User) (List Subscription) (List ApiKey)
subscribed = stored_by unsubscribed (
    handle_subscription_created users subs keys uuid_string uuid_string prices fresh today
      (paid "p1") unsubscribed)

provided :
    handle_subscription_created users subs keys uuid_string uuid_string prices fresh today
      (paid "p1")
      unsubscribed
    ≡ some (none, subscribed)
unfolding handle_subscription_created Users.get_by_stripe_customer_id plan_of_items plan_of_price
    get_plan_type_from_price_id provide Subscriptions.create Subscriptions.get_active_by_user_id
    landmark_api.ApiKeys.assign_api_key_to_user Users.grant_access
provided = refl

handle_subscription_created-IsProvided_example :
    (customer : String) × (user : User) × (plan : SubscriptionPlan) × (some "cus_1" ≡ some customer)
    × (Users.get_by_stripe_customer_id users customer unsubscribed.users ≡ ok user)
    × (plan_of_items users subs keys uuid_string uuid_string prices customer (paid "p1")
        ≡ some (ok plan))
    × IsProvided users subs keys users_laws subs_laws keys_laws uuid_string uuid_string prices fresh
        today user
        (of_stripe users subs keys uuid_string uuid_string prices user customer (paid "p1") plan)
        unsubscribed
        subscribed
handle_subscription_created-IsProvided_example =
    handle_subscription_created-IsProvided users subs keys users_laws subs_laws keys_laws
      uuid_string uuid_string prices fresh today (paid "p1") unsubscribed subscribed provided
