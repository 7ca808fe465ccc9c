-- ===== src/Stripe/Updates.antt =====
-- What the webhooks for updated and deleted subscriptions change.
use landmark_api.Common.{String, ◌≡◌, some, inl, inr, arith, Result-cases, Option-cases, count}
use landmark_api.Calendar.{Time}
use landmark_api.Models.{Uuid, User, Subscription, ApiKey, pro_plan}
use landmark_api.Database.{Table, TableLaws}
use landmark_api.Users
use landmark_api.Subscriptions
use landmark_api.Subscriptions.Rows.{update-ne-none, rows-update}
use landmark_api.Auth.{Db}
use landmark_api.Stripe.{Prices, StripeSubscription, of_stripe, handle_subscription_updated}

module _ {US SS KS : Type 0} (users : Table US User) (subs : Table SS Subscription)
    (keys : Table KS ApiKey) (sl : TableLaws subs) (uuid_string show_bytes : Uuid → String)
    (env : Prices) where
  -- Whatever status Stripe reports, an update or a deletion of a subscription neither grants nor
  -- revokes the access of any user, and where no subscription has the nil id it leaves every stored
  -- subscription and key as it is.
  pub handle_subscription_updated-nothing :
      (now : Time) (s : StripeSubscription) (db db' : Db US SS KS)
      → count (Subscriptions.has_id 0) (subs.rows db.subs) ≡ 0
      → handle_subscription_updated users subs keys uuid_string show_bytes env now s db ≡ some db'
      → (db'.users ≡ db.users) × (subs.rows db'.subs ≡ subs.rows db.subs) × (db'.keys ≡ db.keys)
  unfolding handle_subscription_updated
  handle_subscription_updated-nothing now s db db' none_nil h = elim (Option-cases s.customer) [
    | inl gone ↦ ground (arith, gone)
    | inr (customer, has) ↦
        elim (Result-cases (Users.get_by_stripe_customer_id users customer db.users)) [
          | inr (e, failing) ↦ (
            ground (arith, has, failing),
            ground (arith, has, failing),
            ground (arith, has, failing),
          )
          | inl (user, found) ↦
              let new =
                of_stripe users subs keys uuid_string show_bytes env user customer s pro_plan in
              elim (Option-cases (Subscriptions.update subs now new db.subs).0) [
                | inl never ↦ absurd (update-ne-none subs sl now new db.subs never)
                | inr (e, failing) ↦ (
                  ground (arith, has, found, failing),
                  ground (arith, has, found, failing, rows-update subs sl now new db.subs none_nil),
                  ground (arith, has, found, failing),
                )
              ]
        ]
  ]
