-- ===== src/Stripe/Billing.antt =====
-- createStripeCheckoutSession, HandleUserBillingInfo and handleCheckoutSessionCompleted of
-- internal/api/handlers/stripe_handler.go. Nothing calls the last one.
use landmark_api.Common.{
  ℕ, String, Option, none, some, List, [], ◌∷◌, Result, ok, err, if◌then◌else◌, ◌==◌,
}
use landmark_api.Common.Text.{is_empty}
use landmark_api.Calendar.{Time}
use landmark_api.Models.{Uuid, User, Subscription, ApiKey}
use landmark_api.Database.{Table}
use landmark_api.Users
use landmark_api.Auth.{Db, Fresh}
use landmark_api.Http.{Request, Writer, set, http_error}
use landmark_api.Http.Fields.{get_header}
use landmark_api.Http.Responses.{encode}
use landmark_api.Middleware.{TokenCheck, extract_token_from_header}
use landmark_api.Stripe.{
  Prices, StripeSubscription, get_plan_type_from_price_id, of_stripe, provide,
}

-- stripe.CheckoutSessionParams, as far as the handler sets it.
pub record CheckoutParams : Type 0 where
  pub customer : String
  pub price : String
  pub quantity : ℕ
  pub mode : String
  pub success_url : String
  pub cancel_url : String
  pub coupons : List String
  pub payment_method_types : List String

abbrev card_session : String → String → CheckoutParams
card_session customer price = record {
  customer = customer;
  price = price;
  quantity = 1;
  mode = "subscription";
  success_url = "https://www.landmark-api.com/success";
  cancel_url = "https://www.landmark-api.com/cancel";
  coupons = [];
  payment_method_types = [];
}

-- `new_session` is session.New, which gives the id of the session.
unfoldable pub create_stripe_checkout_session :
    Prices → (CheckoutParams → Result String String) → String → String → Result String String
create_stripe_checkout_session env new_session customer price = new_session (
    if price == env.monthly_free
    then record (card_session customer price) { coupons = "GMBDmApc" ∷ [] }
    else record (card_session customer price) { payment_method_types = "card" ∷ [] })

-- BillingInfo over the invoices and the subscriptions of Stripe.
pub record BillingInfo (Invoice Sub : Type 0) : Type 0 where
  pub invoices : List Invoice
  pub subscription : Option Sub
  pub next_payment_date : ℕ

abbrev first_of : {A : Type 0} → List A → Option A
first_of [] = none
first_of (x ∷ xs) = some x

module _ {US Invoice Sub : Type 0} (users : Table US User)
    (list_invoices : String → Result String (List Invoice))
    (list_subscriptions : String → Result String (List Sub)) (current_period_end : Sub → ℕ)
    (marshal : BillingInfo Invoice Sub → Option String) where
  abbrev payment_date : Option Sub → ℕ
  payment_date none = 0
  payment_date (some s) = current_period_end s

  -- The answer to a user with an id of Stripe. Of the subscriptions the first one counts; an error
  -- of the iteration is looked at after it.
  unfoldable pub billing_answer : String → Writer → Writer
  unfolding encode
  billing_answer stripe_id w = elim (list_invoices stripe_id) [
    | err m ↦ http_error "Failed to fetch invoices" 500 w
    | ok invoices ↦ elim (list_subscriptions stripe_id) [
      | err m ↦ http_error "Failed to fetch subscription" 500 w
      | ok found ↦
          let info : BillingInfo Invoice Sub = record {
            invoices = invoices;
            subscription = first_of found;
            next_payment_date = payment_date (first_of found);
          } in
          let v = set "Content-Type" "application/json" w in
          elim (marshal info) [
            | none ↦ http_error "Failed to encode billing info" 500 v
            | some t ↦ encode marshal info v
          ]
    ]
  ]

  -- `verify` is VerifyToken; `none` is its panic.
  unfoldable pub handle_user_billing_info : TokenCheck US → Request → Writer → US → Option Writer
  unfolding billing_answer extract_token_from_header
  handle_user_billing_info verify r w us =
      elim (verify (extract_token_from_header (get_header "Authorization" r.header)) us) [
        | none ↦ none
        | some (err e) ↦ some (http_error "Forbidden" 403 w)
        | some (ok (user, sub)) ↦ some (elim (Users.get_by_id users user.id us) [
          | err e ↦ http_error "Failed to retrieve user" 400 w
          | ok full_user ↦
              if is_empty full_user.stripe_id
              then http_error "User does not have a valid Stripe ID" 400 w
              else billing_answer full_user.stripe_id w
        ])
      ]

-- stripe.CheckoutSession, as far as the handler reads it.
pub record CheckoutSession : Type 0 where
  pub customer : Option String
  pub subscription : Option StripeSubscription

module _ {US SS KS : Type 0} (users : Table US User) (subs : Table SS Subscription)
    (keys : Table KS ApiKey) (uuid_string show_bytes : Uuid → String) (env : Prices) where
  -- The subscription of a known customer; what fails is only logged. `none` is the panic on a price
  -- that is nil; items that are nil are none.
  unfoldable pub provide_session :
      Fresh → Time → String → User → StripeSubscription → Db US SS KS → Option (Db US SS KS)
  unfolding provide get_plan_type_from_price_id
  provide_session f now customer user s db = elim s.item_prices [
    | none ↦ some db
    | some [] ↦ some db
    | some (none ∷ rest) ↦ none
    | some (some price ∷ rest) ↦
        if is_empty price then some db else elim (get_plan_type_from_price_id env price) [
          | err e ↦ some db
          | ok plan ↦
              let (e, db') =
                provide users subs keys uuid_string show_bytes env f now user
                  (of_stripe users subs keys uuid_string show_bytes env user customer s plan) db in
              some db'
        ]
  ]

  unfoldable pub handle_checkout_session_completed :
      Fresh → Time → CheckoutSession → Db US SS KS → Option (Db US SS KS)
  unfolding provide_session
  handle_checkout_session_completed f now session db = elim session.customer [
    | none ↦ some db
    | some customer ↦ elim (Users.get_by_stripe_customer_id users customer db.users) [
      | err e ↦ some db
      | ok user ↦ elim session.subscription [
        | none ↦ some db
        | some s ↦ provide_session f now customer user s db
      ]
    ]
  ]
