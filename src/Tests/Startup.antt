-- ===== src/Tests/Startup.antt =====
-- The start of the server with all packages in order.
use landmark_api.Common.{
  ℕ, suc, String, ◌≡◌, refl, true, Option, none, some, [], ◌∷◌, ok, if◌then◌else◌, ◌==◌, arith,
}
use landmark_api.Models.{new_rate_limit_config}
use landmark_api.Suggestions.{shipped_config, new_suggestions_handler, initialize, exec_all}
use landmark_api.Operations.{cors_options, get_env, get_port, new_cache_config}
use landmark_api.Routes.{routers}
use landmark_api.RateLimit.{is_ip_rate_limited}
use landmark_api.RateLimit.Bursts.{limits_after}
use landmark_api.Startup.{
  Platform, Server, start_up, init_db, auto_migrate, init_jwt_secret, new_redis_cache_service,
  new_file_upload_handler,
}
use landmark_api.Startup.Checks.{IsChecked, start_up-IsChecked, start_up-always_limited}
use landmark_api.Tests.Requests.{history}

abbrev variables : String → Option String
variables key =
    if key == "DATABASE_URL"
    then some "postgres://localhost"
    else if key == "JWT_SECRET"
    then some "secret"
    else none

-- The database is the number of statements that it has run.
abbrev platform : Platform ℕ String
platform = record {
  open_log = none;
  lookup_env = variables;
  open_db = λ url. ok 0;
  auto_migrate = λ db. none;
  sql_db = λ db. none;
  ping = λ options. none;
  exec = λ db statement. ok (suc db);
  new_session = λ region. ok region;
}

abbrev server : Server ℕ String
server = record {
  addr = ":5050";
  write_timeout = 15_000_000_000;
  read_timeout = 15_000_000_000;
  routes = routers;
  cors = cors_options;
  db = 7;
  pool = record { max_open_conns = 25; max_idle_conns = 25; conn_max_lifetime = 300_000_000_000 };
  cache = record { addr = "localhost:6379"; password = ""; db = 0 };
  stripe_key = "";
  jwt_secret = "secret";
  rate_limit = new_rate_limit_config;
  suggestions = shipped_config;
  files = record { s3_client = "eu-north-1"; bucket = "properties-photos" };
}

started : start_up platform ≡ ok server
unfolding start_up init_db auto_migrate init_jwt_secret new_redis_cache_service
    new_file_upload_handler get_env get_port new_cache_config new_suggestions_handler initialize
    exec_all
started = refl

start_up-IsChecked_example : IsChecked platform server
start_up-IsChecked_example = start_up-IsChecked platform server started

start_up-always_limited_example :
    (is_ip_rate_limited server.rate_limit 3_000 "10.0.0.1"
      (limits_after server.rate_limit history)).0
    ≡ true
start_up-always_limited_example =
    start_up-always_limited platform server 3_000 2_000 "10.0.0.1" history (1_000 ∷ []) started refl
      (omega arith)
