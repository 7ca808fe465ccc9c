-- ===== src/Auth.antt =====
-- internal/services/auth_service.go, over tables of users, subscriptions and API keys.
pub mod Verify
pub mod Session
pub mod ByEmail
use landmark_api.Common.{
  ℕ, zero, suc, List, [], ◌∷◌, String, Bool, true, false, Option, none, some, Result, ok, err,
  ◌>>=◌, map_err, if◌then◌else◌, ◌==◌, not,
}
use landmark_api.Common.Text.{is_empty, ◌+++◌}
use landmark_api.Calendar.{Time, zero_time}
use landmark_api.Errors.{Error, driver, login_failed, invalid_token, unauthorized}
use landmark_api.Models.{Uuid, User, Subscription, ApiKey, free_plan}
use landmark_api.Database.{Table}
use landmark_api.Users
use landmark_api.Subscriptions
use landmark_api.ApiKeys

-- The claims of a token. `user_id` is `none` where the claim is absent or is not a string.
pub record Claims : Type 0 where
  pub user_id : Option String
  pub role : String
  pub subscription_id : String
  pub plan_type : String

-- The packages bcrypt, jwt, uuid and stripe, as far as the service calls them.
pub record Crypto : Type 0 where
  pub generate_from_password : String → Result String String
  pub compare_hash_and_password : String → String → Bool
  -- jwt.NewWithClaims(HS256, …).SignedString(secret), for claims that expire a day later
  pub sign : String → Claims → Time → Result String String
  -- jwt.Parse with the check of the method: the claims of a token that is valid at the time
  pub parse : String → String → Time → Option Claims
  pub uuid_string : Uuid → String
  pub uuid_parse : String → Option Uuid
  pub new_customer : String → Result String String

-- The values that uuid.New and uuid.NewString give during one call.
pub record Fresh : Type 0 where
  pub user_id : Uuid
  pub key_id : Uuid
  pub key : String
  pub subscription_id : Uuid

pub record Db (US SS KS : Type 0) : Type 0 where
  pub users : US
  pub subs : SS
  pub keys : KS

abbrev pub new_user : Uuid → String → String → String → Time → User
new_user id name email hash now = record {
  id = id;
  name = name;
  email = email;
  password_hash = hash;
  role = "";
  stripe_id = "";
  has_access = false;
  on_boarding = false;
  access_granted_at = zero_time;
  access_revoked_at = zero_time;
  created_at = now;
  updated_at = now;
}

abbrev pub free_subscription : Uuid → Uuid → Time → Subscription
free_subscription id uid now = record {
  id = id;
  user_id = uid;
  plan_type = free_plan;
  stripe_customer_id = "";
  stripe_plan_id = "";
  start_date = now;
  end_date = zero_time;
  status = "active";
  created_at = now;
  updated_at = now;
}

module _ {US SS KS : Type 0} (users : Table US User) (subs : Table SS Subscription)
    (keys : Table KS ApiKey) (c : Crypto) where
  -- The part of Register and RegisterWithEmail from userRepo.Create on, without the mail of the
  -- latter: the user that is returned,
  -- the error, and what is stored. A step that fails leaves what was stored before it.
  unfoldable pub enrol :
      Fresh → Time → User → Db US SS KS → Option User × Option Error × Db US SS KS
  enrol f now u db =
      let (e, us) = Users.create users f.user_id now u db.users in
      let db' = record db { users = us } in
      elim e [
        | some e ↦ (none, some e, db)
        | none ↦
            let (k, ks) = ApiKeys.assign_api_key_to_user keys f.key_id f.key now u.id db.keys in
            elim k [
              | err e ↦ (some u, some e, db')
              | ok k ↦
                  let (e, ss) =
                    Subscriptions.create subs f.subscription_id now
                      (free_subscription f.subscription_id u.id now) db.subs in
                  (some u, e, record { users = us; subs = ss; keys = ks })
            ]
      ]

  unfoldable pub register :
      Fresh
      → Time
      → String
      → String
      → String
      → Db US SS KS
      → Option User × Option Error × Db US SS KS
  register f now email password name db = elim (c.generate_from_password password) [
    | err m ↦ (none, some (driver m), db)
    | ok hash ↦ enrol f now (new_user f.user_id name email hash now) db
  ]

  unfoldable pub register_sub :
      Fresh
      → Time
      → String
      → String
      → String
      → Db US SS KS
      → Option User × Option Error × Db US SS KS
  register_sub f now email password name db = elim (c.generate_from_password password) [
    | err m ↦ (none, some (driver m), db)
    | ok hash ↦ elim (c.new_customer email) [
      | err m ↦ (none, some (driver m), db)
      | ok customer ↦
          let u : User = record (new_user f.user_id name email hash now) { stripe_id = customer } in
          let (e, us) = Users.create users f.user_id now u db.users in
          elim e [ some e ↦ (none, some e, db) | none ↦ (some u, none, record db { users = us }) ]
    ]
  ]

  abbrev pub claims_of : User → Subscription → Claims
  claims_of u s = record {
    user_id = some (c.uuid_string u.id);
    role = u.role;
    subscription_id = c.uuid_string s.id;
    plan_type = s.plan_type;
  }

  unfoldable pub login :
      String → Time → String → String → Db US SS KS → Result Error (String × Bool)
  login secret now email password db = do
    user ← Users.get_by_email users email db.users
    if c.compare_hash_and_password user.password_hash password
        then (do
          sub ← Subscriptions.get_active_by_user_id subs now user.id db.subs
          token ← map_err driver (c.sign secret (claims_of user sub) now)
          ok (token, user.role == "admin"))
        else err login_failed

  unfoldable pub update_user :
      Time → Uuid → String → String → Db US SS KS → Option Error × Db US SS KS
  update_user now uid name password db = elim (Users.get_by_id users uid db.users) [
    | err e ↦ (some e, db)
    | ok u ↦
        let named = if is_empty name then u else (record u { name = name }) in
        let store : User → Option Error × Db US SS KS =
          λ v. let (e, us) = Users.update users v db.users in (e, record db { users = us }) in
        if is_empty password then store named else elim (c.generate_from_password password) [
          | err m ↦ (some (driver m), db)
          | ok hash ↦ store (record named { password_hash = hash })
        ]
  ]

  -- The user id of a token. The outer `none` is a panic: the claim is no string.
  unfoldable pub token_user : String → Time → String → Option (Result Error Uuid)
  token_user secret now token = elim (c.parse secret token now) [
    | none ↦ some (err invalid_token)
    | some claims ↦ elim claims.user_id [
      | none ↦ none
      | some id ↦ elim (c.uuid_parse id) [
        | none ↦ some (err invalid_token)
        | some uid ↦ some (ok uid)
      ]
    ]
  ]

  abbrev pub user_and_subscription :
      (User → Bool) → Time → Db US SS KS → Uuid → Result Error (User × Subscription)
  user_and_subscription allowed now db uid = do
    user ← Users.get_by_id users uid db.users
    if allowed user
        then (do sub ← Subscriptions.get_active_by_user_id subs now uid db.subs; ok (user, sub))
        else err unauthorized

  unfoldable pub verify_token :
      String → Time → String → Db US SS KS → Option (Result Error (User × Subscription))
  verify_token secret now token db = elim (token_user secret now token) [
    | none ↦ none
    | some r ↦ some (r >>= user_and_subscription (λ u. true) now db)
  ]

  unfoldable pub verify_token_admin :
      String → Time → String → Db US SS KS → Option (Result Error (User × Subscription))
  verify_token_admin secret now token db = elim (token_user secret now token) [
    | none ↦ none
    | some r ↦ some (r >>= user_and_subscription (λ u. u.role == "admin") now db)
  ]
