-- ===== src/Lib.antt =====
-- A model of the landmark API, a Go service that sells access to data on landmarks, with the
-- theorems that make its parts correct.
--
-- A request to the landmarks below /api/v1 passes the API key's check and the rate limiter
-- (internal/middleware) before its handler runs, and its log is written afterwards; the routes of
-- /api/v1/contribution pass neither, and those of /api/v1/suggestions the check of the key alone.
-- Accounts, subscriptions, keys and usage are kept in PostgreSQL through gorm (internal/repository),
-- and Stripe's webhooks change subscriptions and access (internal/api/handlers/stripe_handler.go).
--
--   Common         Boolean tests, lists, results, texts, signed limits, maps
--   Database       a table of gorm: a parameter with laws; Database/Memory is one in memory
--   Calendar       the calendar months of Go's package time
--   Errors         internal/errors/errors.go and the error values of the other packages
--   Models         internal/models and internal/config/rate_limit.go
--   Repository     the three ways in which the repositories use a result of gorm
--   Users          internal/repository/user_repository.go
--   Subscriptions  internal/repository/subscription_repository.go
--   ApiKeys        internal/repository/apikey_repository.go, internal/services/api_service.go
--   Usage          internal/services/api_usage_service.go,
--                  internal/repository/api_usage_repository.go
--   Auth           internal/services/auth_service.go
--   Http           requests, the response writer, the context
--   RateLimit      internal/middleware/ratelimit.go
--   Middleware     internal/middleware/auth.go, admin_auth.go, apikey.go
--   Stripe         internal/api/handlers/stripe_handler.go
--   Landmarks      internal/api/handlers/landmark_handler.go with
--                  internal/services/landmark_service.go, cache_service.go and
--                  internal/repository/landmark_repository.go
--   Submissions    the submissions of landmarks in the same handlers
--   Suggestions    internal/api/handlers/suggestions_handler.go
--   Accounts       internal/api/handlers/auth_handler.go, api_usage_handler.go
--   Logs           the log of requests: internal/middleware/request_logger.go,
--                  internal/services/request_log_service.go,
--                  internal/repository/request_log_repository.go,
--                  internal/api/handlers/request_log_handler.go
--   Audit          the log of administrators: internal/services/audit_log_service.go,
--                  internal/repository/audit_log_repository.go,
--                  internal/api/handlers/audit_log_handler.go
--   Statistics     the counts of landmarks and the categories, from their handlers down
--   Media          internal/api/handlers/media_handler.go
--   Uptime         internal/api/handlers/uptime_handler.go
--   Operations     internal/api/controllers/health_check.go,
--                  internal/middleware/logger_middleware.go, internal/config/cache_config.go,
--                  internal/services/weather_service.go
--   Startup        the start of the server in cmd/api/main.go, internal/database/db.go and the
--                  constructors that can fail
--   Routes         the routes of cmd/api/main.go with their middlewares
--   Tests          the theorems at concrete inputs
--
-- Functions keep the names of the Go code in snake case. An operation on stored data takes the
-- state and gives the new one beside its result. Gorm and PostgreSQL are the record
-- `Database.Table`, the operations that the code calls, with `Database.TableLaws`, what it relies
-- on; a read does not change the state, and a row that is deleted is not in the table. The
-- packages bcrypt, jwt, uuid and stripe are `Auth.Crypto` with `Auth.Session.CryptoLaws`.
--
-- The time, new ids and generated keys enter as arguments, one time for each call. Times are in
-- UTC. Redis, encoding/json, the weather service and the operations on float64 are parameters of
-- `Landmarks`. Counters are natural numbers: an overflow of a Go int is not reached. A float is its
-- bit pattern. The text of log lines is not modelled. A panic is `none`, or a flag where a wrapper
-- recovers from it.
--
-- Responses are written to a `Http.Writer`: what is sent is fixed by the first code, and the codes
-- of all calls of WriteHeader are kept for the wrappers that look at the last one. The decoding of
-- a body is an argument of its handler, and encoding/json's Marshal a parameter. The conditions of
-- SQL, LIKE, GROUP BY and SELECT DISTINCT are parameters with the laws that a theorem needs.
--
-- `RateLimit.Races` takes each call of the usage service as one step; `RateLimit.Stored` is the
-- service that main.go hands to the limiter, over the tables, and has what `Races` asks for. That is
-- so for the requests of a user that come one at a time, and it gives some of the orders of those
-- that overlap: calls of IncrementUsage for one user that overlap themselves, which can create two
-- records for one period, are not modelled.
--
-- Not modelled are the constructors that only put their arguments into a struct, the dispatch of
-- gorilla/mux, the logger and the text of mails, which are input and output;
-- internal/migrations/migration.go, which is commented out as a whole; and the generated
-- documentation. Opening PostgreSQL, Redis and S3 are parameters of `Startup`.
--
-- The loop over billing periods runs on fuel, the months up to now and one more (`Usage.rounds`):
-- each round moves the end of the period into a later month, and that many rounds pass now.
pub mod Accounts
pub mod ApiKeys
pub mod Audit
pub mod Auth
pub mod Calendar
pub mod Common
pub mod Database
pub mod Errors
pub mod Http
pub mod Landmarks
pub mod Logs
pub mod Media
pub mod Middleware
pub mod Models
pub mod Operations
pub mod RateLimit
pub mod Repository
pub mod Routes
pub mod Startup
pub mod Statistics
pub mod Stripe
pub mod Submissions
pub mod Subscriptions
pub mod Suggestions
pub mod Tests
pub mod Uptime
pub mod Usage
pub mod Users
