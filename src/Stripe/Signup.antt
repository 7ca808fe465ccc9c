-- ===== src/Stripe/Signup.antt =====
-- A customer from the registration over the payment to the use of the API: RegisterSub of the
-- authentication service, the webhook for a created subscription, and the lookup by API key.
use landmark_api.Common.{
  ◌≢◌, String, ◌≡◌, sym, ap, ◌∙◌, refl, some, none, Option, List, ◌∷◌, ok, true, false, inl, inr,
  arith, Result-cases, Option-cases, map, count, count-map-le, count-le, count-eq-zero, Occurs,
  if◌then◌else◌, eqb, ◌==◌, eq_iff,
}
use mathlib.Core.Path.{subst}
use landmark_api.Common.Text.{is_empty}
use landmark_api.Errors.{Error, not_found}
use landmark_api.Calendar.{Time, before}
use landmark_api.Models.{
  Uuid, User, Subscription, SubscriptionPlan, ApiKey, before_create_user,
  before_create_subscription,
}
use landmark_api.Database.{Table, TableLaws, with_where, with_order}
use landmark_api.Repository.{first-only, read-ok}
use landmark_api.Users
use landmark_api.Users.Access.{create-rows}
use landmark_api.Subscriptions
use landmark_api.ApiKeys.{get_user_and_subscription_by_api_key, get_by_key}
use landmark_api.Auth.{Crypto, Db, Fresh, new_user, register_sub}
use landmark_api.Auth.Session.{Answers, stored_user}
use landmark_api.Stripe.{
  Prices, StripeSubscription, of_stripe, handle_subscription_created, plan_of_items, plan_of_price,
  get_plan_type_from_price_id, handle_stripe_webhook, provide,
}
use landmark_api.Stripe.Creation.{IsProvided, handle_subscription_created-IsProvided}

module _ {US SS KS : Type 0} (users : Table US User) (subs : Table SS Subscription)
    (keys : Table KS ApiKey) (ul : TableLaws users) (sl : TableLaws subs) (kl : TableLaws keys)
    (c : Crypto) (uuid_string show_bytes : Uuid → String) (env : Prices) where
  -- The customer, the user's id and the key are new to the tables.
  pub record IsNew (f g : Fresh) (customer : String) (db : Db US SS KS) : Type 0 where
    pub no_customer : count (λ v. v.stripe_id == customer) (users.rows db.users) ≡ 0
    pub no_user : count (Users.has_id f.user_id) (users.rows db.users) ≡ 0
    pub no_key : count (λ k. k.key == g.key) (keys.rows db.keys) ≡ 0
    pub no_sub : count (λ x. eqb x.user_id f.user_id) (subs.rows db.subs) ≡ 0

  -- RegisterSub stores one user more.
  register_sub-rows :
      (f : Fresh) (now : Time) (email password name hash customer : String) (db : Db US SS KS)
      → let new : User = record (new_user f.user_id name email hash now) { stripe_id = customer } in
        let r = register_sub users subs keys c f now email password name db in
        c.generate_from_password password ≡ ok hash
        → c.new_customer email ≡ ok customer
        → r.1 ≡ none
        → (users.rows r.2.users ≡ stored_user f.user_id now new ∷ users.rows db.users)
          × (r.2.subs ≡ db.subs)
          × (r.2.keys ≡ db.keys)
  unfolding register_sub
  register_sub-rows f now email password name hash customer db hashed opened done =
      let new : User = record (new_user f.user_id name email hash now) { stripe_id = customer } in
      elim (Option-cases (Users.create users f.user_id now new db.users).0) [
        | inr (e, failing) ↦ absurd (ground (arith, hashed, opened, failing, done))
        | inl made ↦
            rw (hashed, opened, register_sub)
              (rw made (create-rows users ul f.user_id now new db.users made, refl, refl))
      ]

  -- A lookup by key where the key, its user and the user's subscription stand alone in the tables.
  lookup-only :
      (later : Time) (us : US) (ss : SS) (ks : KS) (u : User) (x : Subscription) (k : ApiKey)
      (old_users : List User) (old_subs : List Subscription) (old_keys : List ApiKey)
      → users.rows us ≡ u ∷ old_users
      → subs.rows ss ≡ x ∷ old_subs
      → keys.rows ks ≡ k ∷ old_keys
      → count (Users.has_id u.id) old_users ≡ 0
      → count (Subscriptions.is_active later u.id) old_subs ≡ 0
      → count (λ (j : ApiKey). j.key == k.key) old_keys ≡ 0
      → k.user_id ≡ u.id
      → Subscriptions.is_active later u.id x ≡ true
      → Answers users us
      → Answers subs ss
      → Answers keys ks
      → get_user_and_subscription_by_api_key keys users subs later k.key ks us ss ≡ ok (u, x)
  unfolding get_user_and_subscription_by_api_key get_by_key Users.get_by_id
      Subscriptions.get_active_by_user_id Answers
  lookup-only later us ss ks u x k old_users old_subs old_keys ru rs rk nu ns nk own active au as_
        ak =
      let (ok_, ek) = ak (with_where (λ (j : ApiKey). j.key == k.key)) in
      let (ou, eu) = au (with_where (Users.has_id u.id)) in
      let (os, es) = as_ (with_order (Subscriptions.is_active later u.id) "created_at DESC") in
      let key_found =
        first-only keys kl ks _ k old_keys ok_ rk nk ((eq_iff k.key k.key).1 refl) ek in
      let user_found = first-only users ul us _ u old_users ou ru nu (ground arith) eu in
      let sub_found = first-only subs sl ss _ x old_subs os rs ns active es in
      rw ek (rw key_found (rw own (rw eu (rw user_found (rw es (rw sub_found refl))))))

  -- The user whom the webhook finds by the customer is the one who was stored last.
  customer-found :
      (customer : String) (us : US) (u user : User) (old : List User)
      → users.rows us ≡ u ∷ old
      → count (λ v. v.stripe_id == customer) old ≡ 0
      → Users.get_by_stripe_customer_id users customer us ≡ ok user
      → u ≡ user
  unfolding Users.get_by_stripe_customer_id
  customer-found customer us u user old rows others found =
      let (m, hit) =
        read-ok users ul not_found (Users.failed "failed to get user by customer id") us
          (with_where (λ v. v.stripe_id == customer)) user found in
      elim (subst (λ xs. Occurs user xs) rows m) [
        | inl same ↦ same
        | inr k ↦ absurd (cc (hit, count-eq-zero (λ v. v.stripe_id == customer) old user others k))
      ]

  plan-known :
      (customer price : String) (rest : List (Option String)) (s : StripeSubscription)
      (plan plan' : SubscriptionPlan)
      → s.item_prices ≡ some (some price ∷ rest)
      → is_empty price ≡ false
      → get_plan_type_from_price_id env price ≡ ok plan
      → plan_of_items users subs keys uuid_string show_bytes env customer s ≡ some (ok plan')
      → plan ≡ plan'
  unfolding plan_of_items plan_of_price
  plan-known customer price rest s plan plan' items given known h =
      ground (arith, items, given, known, h)

  -- What the lookup needs of the tables after the webhook.
  served-IsProvided :
      (f g : Fresh) (later : Time) (customer : String) (s : StripeSubscription) (u : User)
      (plan : SubscriptionPlan) (db db1 db2 : Db US SS KS)
      → IsNew f g customer db
      → u.id ≡ f.user_id
      → users.rows db1.users ≡ u ∷ users.rows db.users
      → db1.subs ≡ db.subs
      → db1.keys ≡ db.keys
      → s.status ≡ "active"
      → before later s.current_period_end ≡ true
      → IsProvided users subs keys ul sl kl uuid_string show_bytes env g later u
          (of_stripe users subs keys uuid_string show_bytes env u customer s plan)
          db1
          db2
      → Answers users db2.users
      → Answers subs db2.subs
      → Answers keys db2.keys
      → get_user_and_subscription_by_api_key keys users subs later g.key db2.keys db2.users db2.subs
        ≡ ok (
          Users.granted later u,
          before_create_subscription g.subscription_id later
              (of_stripe users subs keys uuid_string show_bytes env u customer s plan),
        )
  unfolding Subscriptions.is_active before_create_subscription
  served-IsProvided f g later customer s u plan db db1 db2 new own rows same_subs same_keys paid
        running p au as_ ak =
      let mark = λ (v : User). if Users.has_id u.id v then Users.granted later v else v in
      let x =
        before_create_subscription g.subscription_id later
          (of_stripe users subs keys uuid_string show_bytes env u customer s plan) in
      let user_rows : users.rows db2.users
          ≡ Users.granted later u ∷ map mark (users.rows db.users) =
        let hit : mark u ≡ Users.granted later u = ground arith in
        p.access ∙ ap (map mark) rows ∙ ap (λ v. v ∷ map mark (users.rows db.users)) hit in
      let no_user : count (Users.has_id u.id) (map mark (users.rows db.users)) ≡ 0 = omega (
        arith,
        new.no_user,
        count-map-le (Users.has_id u.id) (Users.has_id f.user_id) mark
            (λ v h. ground (arith, own, h)) (users.rows db.users),
      ) in
      let no_sub : count (Subscriptions.is_active later u.id) (subs.rows db.subs) ≡ 0 = omega (
        arith,
        new.no_sub,
        count-le (Subscriptions.is_active later u.id) (λ y. eqb y.user_id f.user_id)
            (λ y h. ground (arith, own, h)) (subs.rows db.subs),
      ) in
      let active : Subscriptions.is_active later u.id x ≡ true =
        ground (arith, paid, running, eq_iff s.status "active") in
      let k : ApiKey = record {
        id = g.key_id;
        user_id = u.id;
        key = g.key;
        created_at = later;
        updated_at = later;
      } in
      lookup-only later db2.users db2.subs db2.keys (Users.granted later u) x k
        (map mark (users.rows db.users)) (subs.rows db.subs) (keys.rows db.keys) user_rows
        (p.one_sub ∙ ap (λ t. x ∷ subs.rows t) same_subs)
        (p.one_key ∙ ap (λ t. k ∷ keys.rows t) same_keys) no_user no_sub new.no_key refl active au
        as_ ak

  transport-IsProvided :
      (g : Fresh) (later : Time) (s : StripeSubscription) (db1 db2 : Db US SS KS) (u v : User)
      (customer customer' : String) (plan plan' : SubscriptionPlan)
      → u ≡ v
      → customer ≡ customer'
      → plan ≡ plan'
      → IsProvided users subs keys ul sl kl uuid_string show_bytes env g later u
          (of_stripe users subs keys uuid_string show_bytes env u customer s plan)
          db1
          db2
      → IsProvided users subs keys ul sl kl uuid_string show_bytes env g later v
          (of_stripe users subs keys uuid_string show_bytes env v customer' s plan')
          db1
          db2
  transport-IsProvided g later s db1 db2 u v customer customer' plan plan' e1 e2 e3 p =
      rw (← e1) (rw (← e2) (rw (← e3) p))

  stored :
      (id : Uuid) (now : Time) (new : User)
      → new.id ≡ id
      → new.role ≡ ""
      → ((stored_user id now new).id ≡ id) × ((stored_user id now new).email ≡ new.email)
  unfolding before_create_user
  stored id now new own role = (ground arith, ground arith)

  -- Whoever signs up through RegisterSub as a new customer, and for whom Stripe then reports an
  -- active subscription with a known price that the webhook handles without an error, can use the
  -- API with the key at once: the lookup by the key gives the user, with access, and a subscription
  -- with the plan of the price. The tables answer when they are read.
  pub register_sub-get_user_and_subscription :
      (f g : Fresh) (now later : Time) (email password name hash customer price : String)
      (rest : List (Option String)) (plan : SubscriptionPlan) (s : StripeSubscription)
      (db paid : Db US SS KS)
      → let signed_up = register_sub users subs keys c f now email password name db in
        c.generate_from_password password ≡ ok hash
        → c.new_customer email ≡ ok customer
        → IsNew f g customer db
        → signed_up.1 ≡ none
        → s.customer ≡ some customer
        → s.item_prices ≡ some (some price ∷ rest)
        → is_empty price ≡ false
        → get_plan_type_from_price_id env price ≡ ok plan
        → s.status ≡ "active"
        → before later s.current_period_end ≡ true
        → handle_subscription_created users subs keys uuid_string show_bytes env g later s
            signed_up.2
          ≡ some (none, paid)
        → Answers users paid.users
        → Answers subs paid.subs
        → Answers keys paid.keys
        → (u : User) × (x : Subscription) × (get_user_and_subscription_by_api_key keys users subs
              later g.key paid.keys paid.users paid.subs
            ≡ ok (u, x))
          × (u.id ≡ f.user_id)
          × (u.email ≡ email)
          × (u.has_access ≡ true)
          × (x.plan_type ≡ plan)
  unfolding before_create_subscription
  register_sub-get_user_and_subscription f g now later email password name hash customer price rest
        plan s db paid hashed opened new done whose items given known active running handled au as_
        ak =
      let fresh_user : User = record (new_user f.user_id name email hash now) {
        stripe_id = customer;
      } in
      let u = stored_user f.user_id now fresh_user in
      let (rows, same_subs, same_keys) =
        register_sub-rows f now email password name hash customer db hashed opened done in
      let signed_up = register_sub users subs keys c f now email password name db in
      let (customer', user, plan', has, found, bought, provided) =
        handle_subscription_created-IsProvided users subs keys ul sl kl uuid_string show_bytes env g
          later s signed_up.2 paid handled in
      let one : customer' ≡ customer = ground (arith, has, whose) in
      let same_user : u ≡ user =
        customer-found customer signed_up.2.users u user (users.rows db.users) rows new.no_customer
          (rw one at found) in
      let same_plan = plan-known customer' price rest s plan plan' items given known bought in
      let (id, email_kept) = stored f.user_id now fresh_user refl refl in
      let served =
        served-IsProvided f g later customer s u plan db signed_up.2 _ new id rows same_subs
          same_keys active running
          (transport-IsProvided g later s signed_up.2 _ user u customer' customer plan' plan
            (sym same_user) one (sym same_plan) provided)
          au as_ ak in
      (_, _, served, id, email_kept, refl, refl)

  subscribed-kept :
      (f : Fresh) (now : Time) (customer price : String) (rest : List (Option String))
      (s : StripeSubscription) (user : User) (existing : Subscription) (db : Db US SS KS)
      → s.customer ≡ some customer
      → Users.get_by_stripe_customer_id users customer db.users ≡ ok user
      → Subscriptions.get_active_by_user_id subs now user.id db.subs ≡ ok existing
      → s.item_prices ≡ some (some price ∷ rest)
      → (handle_subscription_created users subs keys uuid_string show_bytes env f now s db ≢ none)
        × ((e : Option Error) (db' : Db US SS KS)
            → handle_subscription_created users subs keys uuid_string show_bytes env f now s db
              ≡ some (e, db')
            → db' ≡ db)
  unfolding handle_subscription_created provide Subscriptions.create plan_of_items
  subscribed-kept f now customer price rest s user existing db whose found active items =
      elim (Result-cases
        (plan_of_price users subs keys uuid_string show_bytes env customer price)) [
          | inr (m, failing) ↦ (
            λ h. ground (arith, whose, found, items, failing),
            λ e db' h. ground (arith, whose, found, items, failing),
          )
          | inl (plan, known) ↦ (
            λ h. ground (arith, whose, found, items, known, active),
            λ e db' h. ground (arith, whose, found, items, known, active),
          )
        ]

  subscribed-nothing :
      (f : Fresh) (now : Time) (customer price : String) (rest : List (Option String))
      (s : StripeSubscription) (user : User) (existing : Subscription) (db : Db US SS KS)
      → s.customer ≡ some customer
      → Users.get_by_stripe_customer_id users customer db.users ≡ ok user
      → Subscriptions.get_active_by_user_id subs now user.id db.subs ≡ ok existing
      → s.item_prices ≡ some (some price ∷ rest)
      → (e : Option Error) × (handle_subscription_created users subs keys uuid_string show_bytes env
            f now s db
          ≡ some (e, db))
  subscribed-nothing f now customer price rest s user existing db whose found active items =
      let kept =
        subscribed-kept f now customer price rest s user existing db whose found active items in
      elim (Option-cases
        (handle_subscription_created users subs keys uuid_string show_bytes env f now s db)) [
          | inl panic ↦ absurd (kept.0 panic)
          | inr ((e, db'), h) ↦ (e, h ∙ ap (λ d. some (e, d)) (kept.1 e db' h))
        ]

  -- The webhook for a created subscription of a customer who has an active subscription, be it a
  -- free one, stores nothing, whatever the price of its first item is, and answers 200 all the same.
  pub handle_stripe_webhook-subscribed :
      (parse : String → Option (String × Option String))
      (parse_subscription : String → Option StripeSubscription) (f : Fresh) (now : Time)
      (payload raw customer price : String) (rest : List (Option String)) (s : StripeSubscription)
      (user : User) (existing : Subscription) (db : Db US SS KS)
      → parse payload ≡ some ("customer.subscription.created", some raw)
      → parse_subscription raw ≡ some s
      → s.customer ≡ some customer
      → Users.get_by_stripe_customer_id users customer db.users ≡ ok user
      → Subscriptions.get_active_by_user_id subs now user.id db.subs ≡ ok existing
      → s.item_prices ≡ some (some price ∷ rest)
      → handle_stripe_webhook users subs keys uuid_string show_bytes env parse parse_subscription f
          now
          (some payload)
          db
        ≡ some (200, db)
  unfolding handle_stripe_webhook
  handle_stripe_webhook-subscribed parse parse_subscription f now payload raw customer price rest s
        user existing db event read whose found active items =
      let (e, nothing) =
        subscribed-nothing f now customer price rest s user existing db whose found active items in
      rw (event, handle_stripe_webhook) (rw read (rw nothing refl))
