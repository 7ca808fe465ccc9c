-- ===== src/Tests/Signup.antt =====
-- A customer who signs up, pays for a month, and pays again.
use landmark_api.Common.{◌≡◌, refl, Bool, true, none, some, List, [], ok, find}
use landmark_api.Calendar.{is_zero, stamp}
use landmark_api.Models.{User, Subscription, ApiKey, pro_plan, before_create_user}
use landmark_api.Users
use landmark_api.Subscriptions
use landmark_api.ApiKeys.{get_user_and_subscription_by_api_key}
use landmark_api.ApiKeys
use landmark_api.Auth.{Db, register_sub}
use landmark_api.Auth.Session.{Answers}
use landmark_api.Database.Memory
use landmark_api.Stripe.{
  StripeSubscription, handle_subscription_created, get_plan_type_from_price_id, provide,
  plan_of_items, plan_of_price, handle_stripe_webhook,
}
use landmark_api.Stripe.Signup.{
  IsNew, register_sub-get_user_and_subscription, handle_stripe_webhook-subscribed,
}
use landmark_api.Tests.Packages.{crypto}
use landmark_api.Tests.Fixtures.{
  today, last_spring, users, users_laws, subs, subs_laws, keys, keys_laws, db, empty_db, fresh,
  uuid_string, prices, paid, stored_by,
}

-- The example's package gives the email as the id of the customer.
abbrev monthly : StripeSubscription
monthly = record (paid "p1") { customer = some "bob@example.com" }

answers : {Row : Type 0} (same : Row → Row → Bool) (s : List Row) → Answers (Memory.table same) s
unfolding Answers
answers same s q = (find q.matches s, refl)

first_customer :
    IsNew users subs keys users_laws subs_laws keys_laws crypto uuid_string uuid_string prices fresh
      fresh "bob@example.com" empty_db
first_customer = record { no_customer = refl; no_user = refl; no_key = refl; no_sub = refl }

signed_up :
    (register_sub users subs keys crypto fresh last_spring "bob@example.com" "pass" "Bob"
      empty_db).1
    ≡ none
unfolding register_sub crypto Users.create
signed_up = refl

abbrev customer_db : Db (List User) (List Subscription) (List ApiKey)
customer_db =
    (register_sub users subs keys crypto fresh last_spring "bob@example.com" "pass" "Bob"
      empty_db).2

abbrev paid_db : Db (List User) (List Subscription) (List ApiKey)
paid_db = stored_by customer_db (
    handle_subscription_created users subs keys uuid_string uuid_string prices fresh today monthly
      customer_db)

handled :
    handle_subscription_created users subs keys uuid_string uuid_string prices fresh today monthly
      customer_db
    ≡ some (none, paid_db)
unfolding handle_subscription_created provide plan_of_items plan_of_price
    get_plan_type_from_price_id Subscriptions.create Subscriptions.get_active_by_user_id
    ApiKeys.assign_api_key_to_user Users.get_by_stripe_customer_id Users.grant_access register_sub
    crypto Users.create before_create_user
handled = refl

register_sub-get_user_and_subscription_example :
    (u : User) × (x : Subscription) × (get_user_and_subscription_by_api_key keys users subs today
        "new-key" paid_db.keys paid_db.users paid_db.subs
      ≡ ok (u, x))
    × (u.id ≡ 1)
    × (u.email ≡ "bob@example.com")
    × (u.has_access ≡ true)
    × (x.plan_type ≡ pro_plan)
unfolding crypto get_plan_type_from_price_id stamp
register_sub-get_user_and_subscription_example =
    register_sub-get_user_and_subscription users subs keys users_laws subs_laws keys_laws crypto
      uuid_string uuid_string prices fresh fresh last_spring today "bob@example.com" "pass" "Bob"
      "pass" "bob@example.com" "p1" [] pro_plan monthly empty_db paid_db refl refl first_customer
      signed_up refl refl refl refl refl refl handled (answers _ _) (answers _ _) (answers _ _)

-- Alice has a free subscription and pays the monthly price.
handle_stripe_webhook-subscribed_example :
    handle_stripe_webhook users subs keys uuid_string uuid_string prices
      (λ t. some ("customer.subscription.created", some t))
      (λ t. some (paid "p1"))
      fresh
      today
      (some "body")
      db
    ≡ some (200, db)
unfolding Users.get_by_stripe_customer_id Subscriptions.get_active_by_user_id
    Subscriptions.is_active is_zero
handle_stripe_webhook-subscribed_example =
    handle_stripe_webhook-subscribed users subs keys users_laws subs_laws keys_laws crypto
      uuid_string uuid_string prices (λ t. some ("customer.subscription.created", some t))
      (λ t. some (paid "p1")) fresh today "body" "body" "cus_1" "p1" [] (paid "p1") _ _ db refl refl
      refl refl refl refl
