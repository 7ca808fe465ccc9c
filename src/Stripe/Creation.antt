-- ===== src/Stripe/Creation.antt =====
-- What the webhook for a created subscription stores.
use landmark_api.Common.{
  err, ap, String, ◌≡◌, ◌≢◌, refl, some, none, Option, ◌∷◌, ok, inl, inr, arith, Result-cases,
  Option-cases, map, count, if◌then◌else◌,
}
use mathlib.Core.Path.{subst}
use mathlib.Core.Option
use landmark_api.Calendar.{Time}
use landmark_api.Models.{
  Uuid, User, Subscription, SubscriptionPlan, ApiKey, before_create_subscription,
}
use landmark_api.Database.{Table, TableLaws}
use landmark_api.Users
use landmark_api.Users.Access.{grant_access-Changes}
use landmark_api.Subscriptions
use landmark_api.Subscriptions.Active.{create-rows}
use landmark_api.ApiKeys
use landmark_api.ApiKeys.Lookup.{assign-rows}
use landmark_api.Auth.{Db, Fresh}
use landmark_api.Stripe.{
  Prices, StripeSubscription, of_stripe, handle_subscription_created, provide, plan_of_items,
}

none_of_map : {A B : Type 0} (f : A → B) (o : Option A) → Option.map f o ≡ none → o ≡ none
none_of_map f none h = refl
none_of_map f (some a) h = cc h

module _ {US SS KS : Type 0} (users : Table US User) (subs : Table SS Subscription)
    (keys : Table KS ApiKey) (ul : TableLaws users) (sl : TableLaws subs) (kl : TableLaws keys)
    (uuid_string show_bytes : Uuid → String) (env : Prices) where
  -- One subscription and one API key more, and the access of the user granted.
  pub record IsProvided (f : Fresh) (now : Time) (user : User) (sub : Subscription)
      (db db' : Db US SS KS) : Type 0 where
    pub one_sub :
        subs.rows db'.subs
        ≡ before_create_subscription f.subscription_id now sub ∷ subs.rows db.subs
    pub one_key :
        keys.rows db'.keys
        ≡ (record {
          id = f.key_id;
          user_id = user.id;
          key = f.key;
          created_at = now;
          updated_at = now;
        })
          ∷ keys.rows db.keys
    pub user_there : count (Users.has_id user.id) (users.rows db.users) ≢ 0
    pub access :
        users.rows db'.users
        ≡ map (λ u. if Users.has_id user.id u then Users.granted now u else u) (users.rows db.users)

  granted-rows :
      (now : Time) (id : Uuid) (someone : User) (us : US)
      → (Users.grant_access users uuid_string now id us).0 ≡ none
      → (count (Users.has_id id) (users.rows us) ≢ 0)
        × (users.rows (Users.grant_access users uuid_string now id us).1
            ≡ map (λ u. if Users.has_id id u then Users.granted now u else u) (users.rows us))
  granted-rows now id someone us h =
      elim (grant_access-Changes users ul uuid_string now id someone us).0 [
        | inl (e, there, rows) ↦ (there, rows)
        | inr (inl (e, none_there, rows)) ↦ absurd (cc (e, h))
        | inr (inr (m, e)) ↦ absurd (cc (e, h))
      ]

  provide-IsProvided :
      (f : Fresh) (now : Time) (user : User) (sub : Subscription) (db : Db US SS KS)
      → (provide users subs keys uuid_string show_bytes env f now user sub db).0 ≡ none
      → IsProvided f now user sub db
          (provide users subs keys uuid_string show_bytes env f now user sub db).1
  unfolding provide
  provide-IsProvided f now user sub db h =
      elim (Option-cases (Subscriptions.create subs f.subscription_id now sub db.subs).0) [
        | inr (e, failing) ↦ absurd (ground (arith, failing))
        | inl made ↦
            elim (Result-cases
              (ApiKeys.assign_api_key_to_user keys f.key_id f.key now user.id db.keys).0) [
                | inr (e, failing) ↦ absurd (ground (arith, made, failing))
                | inl (k, assigned) ↦
                    let granting : (Users.grant_access users uuid_string now user.id db.users).0
                        ≡ none =
                      none_of_map _ _ (rw (made, assigned, provide) at h) in
                    let (there, access) = granted-rows now user.id user db.users granting in
                    rw (made, assigned, provide)
                      (record {
                        one_sub = create-rows subs sl f.subscription_id now sub db.subs made;
                        one_key = assign-rows keys kl f.key_id f.key now user.id db.keys k assigned;
                        user_there = there;
                        access = access;
                      })
              ]
      ]

  -- A subscription that Stripe reports as created, when it is handled without an error, belongs to
  -- a customer who is a user: that user gets one subscription row with the plan of the first
  -- item's price and Stripe's status and end, one API key and the access flag, with the times of
  -- the change. No other row of the three tables is changed.
  pub handle_subscription_created-IsProvided :
      (f : Fresh) (now : Time) (s : StripeSubscription) (db db' : Db US SS KS)
      → handle_subscription_created users subs keys uuid_string show_bytes env f now s db
        ≡ some (none, db')
      → (customer : String) × (user : User) × (plan : SubscriptionPlan) × (s.customer
          ≡ some customer)
        × (Users.get_by_stripe_customer_id users customer db.users ≡ ok user)
        × (plan_of_items users subs keys uuid_string show_bytes env customer s ≡ some (ok plan))
        × IsProvided f now user
            (of_stripe users subs keys uuid_string show_bytes env user customer s plan)
            db
            db'
  unfolding handle_subscription_created
  handle_subscription_created-IsProvided f now s db db' h = elim (Option-cases s.customer) [
    | inl gone ↦ absurd (ground (arith, gone))
    | inr (customer, has) ↦
        elim (Result-cases (Users.get_by_stripe_customer_id users customer db.users)) [
          | inr (e, failing) ↦ absurd (ground (arith, has, failing))
          | inl (user, found) ↦
              elim (Option-cases
                (plan_of_items users subs keys uuid_string show_bytes env customer s)) [
                  | inl panic ↦ absurd (ground (arith, has, found, panic))
                  | inr (err e, failing) ↦ absurd (ground (arith, has, found, failing))
                  | inr (ok plan, known) ↦
                      let sub =
                        of_stripe users subs keys uuid_string show_bytes env user customer s plan in
                      let e : provide users subs keys uuid_string show_bytes env f now user sub db
                          ≡ (none, db') =
                        ground (arith, has, found, known) in
                      (
                        customer,
                        user,
                        plan,
                        has,
                        found,
                        known,
                        subst (λ r. IsProvided f now user sub db r.1) e
                            (provide-IsProvided f now user sub db (ap (λ r. r.0) e)),
                      )
                ]
        ]
  ]
