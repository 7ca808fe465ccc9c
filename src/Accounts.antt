-- ===== src/Accounts.antt =====
-- internal/api/handlers/auth_handler.go and api_usage_handler.go: accounts over HTTP.
pub mod ByEmail
use Prim.Native.Char.{code}
use landmark_api.Common.{String, Bool, Option, none, some, ok, err, if◌then◌else◌, ◌==◌, eqb, not}
use landmark_api.Common.Text.{is_empty}
use landmark_api.Calendar.{Time}
use landmark_api.Errors.{Error, message}
use landmark_api.Models.{User, Subscription, ApiKey, ApiUsage, SubscriptionPlan, RateLimitConfig}
use landmark_api.Database.{Table}
use landmark_api.Subscriptions
use landmark_api.ApiKeys
use landmark_api.Middleware.{TokenCheck}
use landmark_api.Usage.{UsageStats, get_current_usage}
use landmark_api.Auth.{Crypto, Db, Fresh, register, register_sub, login, update_user}
use landmark_api.Http.{
  Request, Context, Writer, Handler, set, http_error, with_user_and_subscription,
}
use landmark_api.Http.Fields.{get_header}
use landmark_api.Http.Responses.{encode}

pub record RegistrationRequest : Type 0 where
  pub name : String
  pub email : String
  pub password : String
  pub plan : String

pub record LoginRequest : Type 0 where
  pub email : String
  pub password : String

pub record UpdateUserRequest : Type 0 where
  pub name : String
  pub password : String

-- The fields of checkResponse that the handler sets; its counters stay 0.
pub record CheckResponse : Type 0 where
  pub name : String
  pub email : String
  pub api_key : String
  pub on_boarding : Bool
  pub plan_type : SubscriptionPlan
  pub access_token : String

-- What the handlers write as JSON.
pub data Answer : Type 0 where
  -- registrationResponse: the id and the email
  registered : String → String → Answer
  -- authResponse: the token and whether the user is an admin
  logged_in : String → Bool → Answer
  validated : String → Answer
  checked : CheckResponse → Answer
  updated : String → Answer
  usage : UsageStats → Answer

-- Five of the handlers begin with a test of the method and with the decoding of the body, which is
-- `none` where it is not valid.
abbrev pub decoding :
    {B W : Type 0}
    → String
    → Request
    → Option B
    → (B → Writer → W → Writer × W)
    → Writer
    → W
    → Writer × W
decoding method r body next w s =
    if not (r.method == method)
    then (http_error "Method not allowed" 405 w, s)
    else elim body [ none ↦ (http_error "Invalid request body" 400 w, s) | some b ↦ next b w s ]

strip_prefix : String → String → Option String
strip_prefix String.[] s = some s
strip_prefix (String.◌∷◌ c p) String.[] = none
strip_prefix (String.◌∷◌ c p) (String.◌∷◌ d s) =
    let rest = strip_prefix p s in if eqb (code c) (code d) then rest else none

-- `if len(s) > 7 && s[:7] == "Bearer " { s = s[7:] }`
unfoldable pub bearer_token : String → String
unfolding strip_prefix
bearer_token s = elim (strip_prefix "Bearer " s) [
  | none ↦ s
  | some rest ↦ if is_empty rest then s else rest
]

module _ {US SS KS : Type 0} (users : Table US User) (subs : Table SS Subscription)
    (keys : Table KS ApiKey) (c : Crypto) (marshal : Answer → Option String) where
  abbrev as_json : Answer → Writer → Writer
  as_json answer w = encode marshal answer (set "Content-Type" "application/json" w)

  -- The answer to a registration, by the user and the error that the service gives. A service that
  -- gives no error gives a user.
  unfoldable pub registration_answer :
      (User → Answer) → Option User → Option Error → Writer → Writer
  unfolding message encode
  registration_answer show user (some e) w = http_error (message e) 500 w
  registration_answer show none none w = w
  registration_answer show (some user) none w = as_json (show user) w

  abbrev pub id_and_email : User → Answer
  id_and_email user = Answer.registered (c.uuid_string user.id) user.email

  -- Without the email.
  abbrev id_only : User → Answer
  id_only user = Answer.registered (c.uuid_string user.id) ""

  unfoldable pub register_handler :
      Fresh
      → Time
      → Request
      → Option RegistrationRequest
      → Writer
      → Db US SS KS
      → Writer × Db US SS KS
  unfolding registration_answer
  register_handler f now r body = decoding "POST" r body (λ req w db.
      let (user, e, db') = register users subs keys c f now req.email req.password req.name db in
      (registration_answer id_and_email user e w, db'))

  unfoldable pub register_sub_handler :
      Fresh
      → Time
      → Request
      → Option RegistrationRequest
      → Writer
      → Db US SS KS
      → Writer × Db US SS KS
  unfolding registration_answer
  register_sub_handler f now r body = decoding "POST" r body (λ req w db.
      let (user, e, db') =
        register_sub users subs keys c f now req.email req.password req.name db in
      (registration_answer id_only user e w, db'))

  unfoldable pub login_handler :
      String → Time → Request → Option LoginRequest → Writer → Db US SS KS → Writer × Db US SS KS
  unfolding message encode
  login_handler secret now r body = decoding "POST" r body (λ req w db.
      elim (login users subs keys c secret now req.email req.password db) [
        | err e ↦ (http_error (message e) 401 w, db)
        | ok (token, is_admin) ↦ (as_json (Answer.logged_in token is_admin) w, db)
      ])

  unfoldable pub validate_token_handler : Writer → Writer
  unfolding encode
  validate_token_handler w = encode marshal (Answer.validated "Token valid") w

  -- CheckUser, with GetAPIKey of the service.
  unfoldable pub check_user_handler : Context → Writer → Db US SS KS → Writer
  unfolding encode
  check_user_handler ctx w db = elim ctx.user [
    | none ↦ http_error "Error processing your request" 403 w
    | some user ↦ elim ctx.subscription [
      | none ↦ http_error "Error processing your request" 403 w
      | some sub ↦ elim (ApiKeys.get_by_user_id keys user.id db.keys) [
        | err e ↦ http_error "Can't fetch user api keys" 403 w
        | ok key ↦
            as_json
              (Answer.checked (record {
                name = user.name;
                email = user.email;
                api_key = key.key;
                on_boarding = user.on_boarding;
                plan_type = sub.plan_type;
                access_token = "";
              }))
              w
      ]
    ]
  ]

  unfoldable pub update_user_handler :
      Time
      → Request
      → Context
      → Option UpdateUserRequest
      → Writer
      → Db US SS KS
      → Writer × Db US SS KS
  unfolding message encode
  update_user_handler now r ctx body = decoding "PUT" r body (λ req w db. elim ctx.user [
    | none ↦ (http_error "Unauthorized" 401 w, db)
    | some user ↦
        let (e, db') = update_user users subs keys c now user.id req.name req.password db in
        elim e [
          | some e ↦ (http_error (message e) 500 w, db')
          | none ↦ (as_json (Answer.updated "User updated successfully") w, db')
        ]
  ])

  -- GetCurrentUsage of api_usage_handler.go, with GetCurrentSubscription of the service.
  unfoldable pub get_current_usage_handler :
      {AS : Type 0}
      → Table AS ApiUsage
      → RateLimitConfig
      → Time
      → Context
      → Writer
      → SS
      → AS
      → Writer
  unfolding encode
  get_current_usage_handler usages config now ctx w ss us = elim ctx.user [
    | none ↦ http_error "Unauthorized" 401 w
    | some user ↦ elim (Subscriptions.get_active_by_user_id subs now user.id ss) [
      | err e ↦ http_error "Error fetching subscription" 500 w
      | ok sub ↦
          elim (get_current_usage usages c.uuid_string subs config now user.id sub.plan_type ss
            us) [
              | err e ↦ http_error "Internal Server Error" 500 w
              | ok stats ↦ as_json (Answer.usage stats) w
            ]
    ]
  ]

  -- AuthMiddleware of the handlers, where it is not left with a panic of the service.
  unfoldable pub auth_handler_middleware :
      {W : Type 0} → TokenCheck W → Handler W → Request → Context → Writer → W → Option (Writer × W)
  unfolding bearer_token
  auth_handler_middleware verify next r ctx w world =
      let header = get_header "Authorization" r.header in
      if is_empty header
      then some (http_error "Unauthorized" 401 w, world)
      else elim (verify (bearer_token header) world) [
        | none ↦ none
        | some (err e) ↦ some (http_error "Invalid token" 401 w, world)
        | some (ok (user, sub)) ↦ some (next r (with_user_and_subscription ctx user sub) w world)
      ]
