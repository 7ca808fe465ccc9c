-- ===== src/Stripe.antt =====
-- internal/api/handlers/stripe_handler.go: checkout and the webhooks, over the tables of users,
-- subscriptions and API keys. Requests to Stripe and the environment variables are parameters; the
-- response of the webhook is its status.
pub mod Plans
pub mod Updates
pub mod Billing
pub mod Creation
pub mod Signup
use landmark_api.Common.{
  ℕ, String, Bool, true, false, Option, none, some, List, [], ◌∷◌, Result, ok, err, ◌>>=◌,
  if◌then◌else◌, ◌==◌, ◌||◌, map_err,
}
use mathlib.Core.Option
use landmark_api.Common.Text.{is_empty, ◌+++◌}
use landmark_api.Calendar.{Time, zero_time}
use landmark_api.Errors.{Error, driver, text, wrapped, message}
use landmark_api.Models.{
  Uuid, User, Subscription, ApiKey, SubscriptionPlan, free_plan, pro_plan, enterprise_plan,
}
use landmark_api.Database.{Table}
use landmark_api.Users
use landmark_api.Subscriptions
use landmark_api.ApiKeys
use landmark_api.Auth.{Db, Fresh}

-- The price ids in the environment.
pub record Prices : Type 0 where
  pub monthly_free : String
  pub monthly : String
  pub annual : String
  pub enterprise : String

unfoldable pub get_price_id_for_plan : Prices → String → Result Error String
get_price_id_for_plan env plan =
    if plan == "free"
    then ok env.monthly_free
    else if plan == "monthly"
    then ok env.monthly
    else if plan == "annual"
    then ok env.annual
    else err (text "invalid plan type")

-- A switch with cases that are not constant: the first that is equal counts.
unfoldable pub get_plan_type_from_price_id : Prices → String → Result Error SubscriptionPlan
get_plan_type_from_price_id env id =
    if id == env.monthly_free
    then ok free_plan
    else if id == env.monthly
    then ok pro_plan
    else if id == env.enterprise
    then ok enterprise_plan
    else err (text ("unknown price ID: " +++ id))

-- fmt.Errorf("… %s: %w", …, err)
abbrev about : Error → String → String → Error
about e what whom = wrapped e (what +++ (whom +++ (": " +++ message e)))

-- stripe.Subscription, as far as the handlers read it: the customer, the items and the price of an
-- item are pointers, `none` where they are nil, and of a price only the id is read.
pub record StripeSubscription : Type 0 where
  pub id : String
  pub customer : Option String
  pub status : String
  pub item_prices : Option (List (Option String))
  -- time.Unix(CurrentPeriodEnd, 0)
  pub current_period_end : Time

-- `show_bytes` is what %d makes of a user's id.
module _ {US SS KS : Type 0} (users : Table US User) (subs : Table SS Subscription)
    (keys : Table KS ApiKey) (uuid_string show_bytes : Uuid → String) (env : Prices) where
  abbrev pub of_stripe : User → String → StripeSubscription → SubscriptionPlan → Subscription
  of_stripe user customer s plan = record {
    id = 0;
    user_id = user.id;
    plan_type = plan;
    stripe_customer_id = customer;
    stripe_plan_id = s.id;
    start_date = zero_time;
    end_date = s.current_period_end;
    status = s.status;
    created_at = zero_time;
    updated_at = zero_time;
  }

  -- The part of handleSubscriptionCreated and of handleCheckoutSessionCompleted that writes: the
  -- subscription, then an API key, then the access. A step that fails leaves what stands before it.
  unfoldable pub provide :
      Fresh → Time → User → Subscription → Db US SS KS → Option Error × Db US SS KS
  provide f now user sub db =
      let (e, ss) = Subscriptions.create subs f.subscription_id now sub db.subs in
      elim e [
        | some e ↦ (
          some (about e "error creating/updating subscription for user " (show_bytes user.id)),
          db,
        )
        | none ↦
            let db' = record db { subs = ss } in
            let (k, ks) = ApiKeys.assign_api_key_to_user keys f.key_id f.key now user.id db.keys in
            elim k [
              | err e ↦
                  (some (about e "error creating api key for user " (show_bytes user.id)), db')
              | ok k ↦
                  let (e, us) = Users.grant_access users uuid_string now user.id db.users in
                  (
                    Option.map
                        (λ e. about e "error granting service access to user " (show_bytes user.id))
                        e,
                    record { users = us; subs = ss; keys = ks },
                  )
            ]
      ]

  -- The plan of the price of the first item.
  unfoldable pub plan_of_price : String → String → Result Error SubscriptionPlan
  plan_of_price customer price =
      if is_empty price
      then err (text ("price ID is empty for customer " +++ customer))
      else map_err (λ e. about e "error determining plan type for price ID " price)
          (get_plan_type_from_price_id env price)

  -- The checks of handleSubscriptionCreated in their order, up to the row that is created. `none`
  -- is the panic on items or a price that are nil.
  unfoldable pub plan_of_items :
      String → StripeSubscription → Option (Result Error SubscriptionPlan)
  plan_of_items customer s = elim s.item_prices [
    | none ↦ none
    | some [] ↦ some (err (text ("no subscription items found for customer " +++ customer)))
    | some (none ∷ rest) ↦ none
    | some (some price ∷ rest) ↦ some (plan_of_price customer price)
  ]

  -- `none` is the panic of plan_of_items, before anything is stored.
  unfoldable pub handle_subscription_created :
      Fresh → Time → StripeSubscription → Db US SS KS → Option (Option Error × Db US SS KS)
  handle_subscription_created f now s db = elim s.customer [
    | none ↦ some (some (text "customer is nil in the subscription"), db)
    | some customer ↦ elim (Users.get_by_stripe_customer_id users customer db.users) [
      | err e ↦ some (some (about e "error retrieving user for customer " customer), db)
      | ok user ↦ elim (plan_of_items customer s) [
        | none ↦ none
        | some (err e) ↦ some (some e, db)
        | some (ok plan) ↦ some (provide f now user (of_stripe user customer s plan) db)
      ]
    ]
  ]

  -- What the status makes of the user's access, with the error that is logged.
  abbrev access_by_status : Time → Uuid → String → US → Option Error × US
  access_by_status now uid status us =
      if status == "active"
      then Users.grant_access users uuid_string now uid us
      else if status == "canceled" || status == "unpaid"
      then Users.revoke_access users uuid_string now uid us
      else (none, us)

  -- `none` is the panic on a nil customer. The result is what is stored.
  unfoldable pub handle_subscription_updated :
      Time → StripeSubscription → Db US SS KS → Option (Db US SS KS)
  handle_subscription_updated now s db = elim s.customer [
    | none ↦ none
    | some customer ↦ elim (Users.get_by_stripe_customer_id users customer db.users) [
      | err e ↦ some db
      | ok user ↦
          let (e, ss) =
            Subscriptions.update subs now (of_stripe user customer s pro_plan) db.subs in
          elim e [
            | some e ↦ some (record db { subs = ss })
            | none ↦ some (record db {
              users = (access_by_status now user.id s.status db.users).1;
              subs = ss;
            })
          ]
    ]
  ]

  -- HandleStripeWebhook. `body` is what reading the body gives, up to 65536 bytes; `parse` and
  -- `parse_subscription` are json.Unmarshal of the event, whose data is `none` where it is nil, and
  -- of its raw data. `none` is a panic, that on nil data included; nothing is stored then.
  unfoldable pub handle_stripe_webhook :
      (String → Option (String × Option String))
      → (String → Option StripeSubscription)
      → Fresh
      → Time
      → Option String
      → Db US SS KS
      → Option (ℕ × Db US SS KS)
  handle_stripe_webhook parse parse_subscription f now body db = elim body [
    | none ↦ some (503, db)
    | some payload ↦ elim (parse payload) [
      | none ↦ some (400, db)
      | some (kind, raw) ↦
          if kind == "customer.subscription.created"
          then (elim raw [
            | none ↦ none
            | some data_text ↦ elim (parse_subscription data_text) [
              | none ↦ some (400, db)
              | some s ↦ elim (handle_subscription_created f now s db) [
                | none ↦ none
                | some (e, db') ↦ some (200, db')
              ]
            ]
          ])
          else if kind == "customer.subscription.updated" || kind == "customer.subscription.deleted"
          then (elim raw [
            | none ↦ none
            | some data_text ↦ elim (parse_subscription data_text) [
              | none ↦ some (400, db)
              | some s ↦ elim (handle_subscription_updated now s db) [
                | none ↦ none
                | some db' ↦ some (200, db')
              ]
            ]
          ])
          else some (200, db)
    ]
  ]

  -- HandleCreateCheckOut: the request body, as decoded, and the session id or the error's status
  -- and text. `new_session` is createStripeCheckoutSession.
  unfoldable pub handle_create_check_out :
      (String → String → Result String String)
      → Result String (Uuid × String)
      → Db US SS KS
      → Result (ℕ × String) String
  handle_create_check_out new_session (err m) db = err (400, m)
  handle_create_check_out new_session (ok (uid, plan)) db =
      elim (Users.get_by_id users uid db.users) [
        | err e ↦ err (404, "user not found")
        | ok user ↦
            if is_empty user.stripe_id
            then err (400, "user doesn't have a Stripe ID")
            else elim (get_price_id_for_plan env plan) [
              | err e ↦ err (400, message e)
              | ok price ↦
                  map_err (λ m. (500, "error creating checkout session"))
                    (new_session user.stripe_id price)
            ]
      ]
