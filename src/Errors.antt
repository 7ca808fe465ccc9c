-- ===== src/Errors.antt =====
-- The error values of the program: internal/errors/errors.go, and the sentinel errors of
-- internal/services/auth_service.go and internal/repository/subscription_repository.go.
use landmark_api.Common.{String, Bool, true, false}

pub data Error : Type 0 where
  -- internal/errors
  not_found already_exists invalid_input insufficient_permission : Error
  database_error cache_error invalid_credentials insufficient_subscription : Error
  -- internal/services: these are other values than those above
  login_failed invalid_token unauthorized : Error
  -- internal/repository
  subscription_not_found subscription_exists : Error
  -- gorm.ErrRecordNotFound
  record_not_found : Error
  -- An error that a package outside the repository returns, by its message.
  driver : String → Error
  -- Wrap: the wrapped error and the message, with the code INTERNAL_ERROR.
  wrapped : Error → String → Error
  -- An error made by errors.New or fmt.Errorf, by its text.
  text : String → Error

unfoldable pub wrap : Error → String → Error
wrap e msg = wrapped e msg

-- Error(): the text of an error.
unfoldable pub message : Error → String
message not_found = "resource not found"
message already_exists = "resource already exists"
message invalid_input = "invalid input"
message insufficient_permission = "insufficient permission"
message database_error = "database error"
message cache_error = "cache error"
message invalid_credentials = "invalid credentials"
message insufficient_subscription = "insufficient subscription"
message login_failed = "invalid credentials"
message invalid_token = "invalid token"
message unauthorized = "user is not authorized as admin"
message subscription_not_found = "subscription not found"
message subscription_exists = "active subscription already exists"
message record_not_found = "record not found"
message (driver m) = m
message (wrapped e m) = m
message (text m) = m

-- err == ErrSubscriptionNotFound, and errors.Is of it.
abbrev pub is_subscription_not_found : Error → Bool
is_subscription_not_found subscription_not_found = true
is_subscription_not_found _ = false
