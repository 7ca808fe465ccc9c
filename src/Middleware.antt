-- ===== src/Middleware.antt =====
-- internal/middleware/auth.go, admin_auth.go and apikey.go, and the same token extraction in
-- internal/api/handlers/stripe_handler.go. The services are parameters over a world `W`. A handler
-- that may panic returns `none` for the panic.
pub mod Tokens
pub mod Guards
pub mod Logging
use landmark_api.Common.{
  ℕ, ◌+◌, ◌<◌, String, Bool, true, false, Option, none, some, List, [], ◌∷◌, Result, ok, err,
  if◌then◌else◌, ◌==◌, ◌&&◌, length,
}
use landmark_api.Common.Text.{split, is_empty, ◌+++◌}
use landmark_api.Errors.{Error}
use landmark_api.Models.{User, Subscription}
use landmark_api.Http.{
  Request, Context, Writer, Handler, Sent, http_error, with_user_and_subscription,
}
use landmark_api.Http.Fields.{get_header}

-- extractTokenFromHeader, on the value of the header Authorization
abbrev second_of_two : List String → String
second_of_two (a ∷ b ∷ []) = b
second_of_two _ = ""

unfoldable pub extract_token_from_header : String → String
extract_token_from_header bearer = second_of_two (split b' ' bearer)

-- VerifyToken or VerifyTokenAdmin of the authentication service; `none` is a panic.
abbrev pub TokenCheck : Type 0 → Type 0
TokenCheck W = String → W → Option (Result Error (User × Subscription))

module _ {W : Type 0} where
  -- AuthMiddleware and AdminMiddleware differ in the check alone.
  unfoldable pub auth_middleware :
      TokenCheck W → Handler W → Request → Context → Writer → W → Option (Writer × W)
  unfolding extract_token_from_header
  auth_middleware verify next r ctx w world =
      let token = extract_token_from_header (get_header "Authorization" r.header) in
      if is_empty token
      then some (http_error "Unauthorized" 401 w, world)
      else elim (verify token world) [
        | none ↦ none
        | some (err e) ↦ some (http_error "Unauthorized" 401 w, world)
        | some (ok (user, sub)) ↦ some (next r (with_user_and_subscription ctx user sub) w world)
      ]

  -- `verify_admin` is VerifyTokenAdmin.
  unfoldable pub admin_middleware :
      TokenCheck W → Handler W → Request → Context → Writer → W → Option (Writer × W)
  unfolding auth_middleware
  admin_middleware verify_admin next = auth_middleware verify_admin next

  -- `lookup` is GetUserAndSubscriptionByAPIKey.
  unfoldable pub api_key_middleware :
      (String → W → Result Error (User × Subscription)) → Handler W → Handler W
  api_key_middleware lookup next r ctx w world =
      let key = get_header "X-Api-Key" r.header in
      if is_empty key
      then (http_error "API key is required" 401 w, world)
      else elim (lookup key world) [
        | err e ↦ (http_error "Invalid API key" 401 w, world)
        | ok (user, sub) ↦ next r (with_user_and_subscription ctx user sub) w world
      ]
