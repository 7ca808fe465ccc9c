-- ===== src/Stripe/Plans.antt =====
-- The plans that the checkout sells and the plans that the webhook knows.
use landmark_api.Common.{
  Option, some, String, ◌≡◌, ◌≢◌, false, none, List, ◌∷◌, ok, err, inl, inr, arith, ◌==◌, eq_iff,
  Result-cases, Option-cases, ◌>>=◌,
}
use landmark_api.Calendar.{Time}
use landmark_api.Errors.{Error, text}
use landmark_api.Models.{Uuid, User, Subscription, ApiKey, free_plan, pro_plan, SubscriptionPlan}
use landmark_api.Database.{Table}
use landmark_api.Users
use landmark_api.Auth.{Db, Fresh}
use landmark_api.Stripe.{
  Prices, StripeSubscription, get_price_id_for_plan, get_plan_type_from_price_id, plan_of_items,
  plan_of_price, handle_subscription_created,
}

-- The price that is sold as "free" is known to the webhook as the free plan and the one sold as
-- "monthly" as the pro plan; no other name of a plan but "annual" has a price.
plans_round_trip :
    (env : Prices) (plan : String)
    → env.monthly ≢ env.monthly_free
    → plan ≢ "free"
    → plan ≢ "monthly"
    → plan ≢ "annual"
    → ((get_price_id_for_plan env "free" >>= get_plan_type_from_price_id env) ≡ ok free_plan)
      × ((get_price_id_for_plan env "monthly" >>= get_plan_type_from_price_id env) ≡ ok pro_plan)
      × ((e : Error) × (get_price_id_for_plan env plan ≡ err e))
unfolding get_price_id_for_plan get_plan_type_from_price_id
plans_round_trip env plan differ nf nm na = (
  ground (arith, eq_iff env.monthly_free env.monthly_free),
  ground (arith, eq_iff env.monthly env.monthly, eq_iff env.monthly env.monthly_free),
  (
    text "invalid plan type",
    ground (arith, eq_iff plan "free", eq_iff plan "monthly", eq_iff plan "annual"),
  ),
)

no_eq : (s t : String) → s ≢ t → (s == t) ≡ false
no_eq s t h = ground (arith, eq_iff s t)

module _ {US SS KS : Type 0} (users : Table US User) (subs : Table SS Subscription)
    (keys : Table KS ApiKey) (uuid_string show_bytes : Uuid → String) (env : Prices) where
  annual_unknown :
      (customer : String) (s : StripeSubscription) (rest : List (Option String))
      → env.annual ≢ env.monthly_free
      → env.annual ≢ env.monthly
      → env.annual ≢ env.enterprise
      → s.item_prices ≡ some (some env.annual ∷ rest)
      → (p : SubscriptionPlan)
      → plan_of_items users subs keys uuid_string show_bytes env customer s ≢ some (ok p)
  unfolding plan_of_items plan_of_price get_plan_type_from_price_id
  annual_unknown customer s rest nf nm ne paid p h = ground (
    arith,
    paid,
    no_eq env.annual env.monthly_free nf,
    no_eq env.annual env.monthly nm,
    no_eq env.annual env.enterprise ne,
  )

  -- A customer who has paid the annual price, where that price is none of the three that the
  -- webhook knows, gets nothing: handling the subscription fails and stores nothing.
  annual_not_provided :
      (f : Fresh) (now : Time) (s : StripeSubscription) (rest : List (Option String))
      (db : Db US SS KS)
      → env.annual ≢ env.monthly_free
      → env.annual ≢ env.monthly
      → env.annual ≢ env.enterprise
      → s.item_prices ≡ some (some env.annual ∷ rest)
      → (e : Option Error) (db' : Db US SS KS)
      → handle_subscription_created users subs keys uuid_string show_bytes env f now s db
        ≡ some (e, db')
      → (e ≢ none) × (db' ≡ db)
  unfolding handle_subscription_created
  annual_not_provided f now s rest db nf nm ne paid e db' h = elim (Option-cases s.customer) [
    | inl gone ↦ (λ z. ground (arith, gone), ground (arith, gone))
    | inr (customer, has) ↦
        elim (Result-cases (Users.get_by_stripe_customer_id users customer db.users)) [
          | inr (m, failing) ↦ (λ z. ground (arith, has, failing), ground (arith, has, failing))
          | inl (user, found) ↦
              elim (Option-cases
                (plan_of_items users subs keys uuid_string show_bytes env customer s)) [
                  | inl panic ↦ absurd (ground (arith, has, found, panic))
                  | inr (ok p, known) ↦
                      absurd (annual_unknown customer s rest nf nm ne paid p known)
                  | inr (err m, unknown) ↦ (
                    λ z. ground (arith, has, found, unknown),
                    ground (arith, has, found, unknown),
                  )
                ]
        ]
  ]
