-- ===== src/Startup.antt =====
-- The start of the server: init of internal/logger/logger.go, main of cmd/api/main.go,
-- internal/database/db.go, and the constructors of internal/services/cache_service.go and
-- internal/api/handlers/media_handler.go. The handlers and services that main puts together are
-- functions of the other files, so what it makes is the settings that they run with.
pub mod Checks
use landmark_api.Common.{
  ℕ, String, Bool, Option, none, some, List, Result, ok, err, map_err, ◌>>=◌, if◌then◌else◌,
}
use landmark_api.Common.Text.{◌+++◌, is_empty}
use landmark_api.Errors.{message}
use landmark_api.Models.{RateLimitConfig, new_rate_limit_config}
use landmark_api.Suggestions.{SuggestionsConfig, shipped_config, new_suggestions_handler}
use landmark_api.Operations.{
  CacheConfig, CorsOptions, cors_options, get_env, get_port, new_cache_config,
}
use landmark_api.Routes.{Router, routers}

-- redis.Options, as far as they are set.
pub record RedisOptions : Type 0 where
  pub addr : String
  pub password : String
  pub db : ℕ

-- NewRedisCacheService: `ping` is the error of the PING, if there is one.
unfoldable pub new_redis_cache_service :
    (RedisOptions → Option String) → CacheConfig → Result String RedisOptions
new_redis_cache_service ping cfg =
    let options : RedisOptions = record {
      addr = cfg.redis_host +++ (":" +++ cfg.redis_port);
      password = cfg.redis_password;
      db = cfg.redis_db;
    } in
    elim (ping options) [ some m ↦ err ("failed to connect to Redis: " +++ m) | none ↦ ok options ]

-- The file upload handler; `S` is what s3.New makes of a session.
pub record FileUploadHandler (S : Type 0) : Type 0 where
  pub s3_client : S
  pub bucket : String

-- `new_session` is session.NewSession of a region, and s3.New.
unfoldable pub new_file_upload_handler :
    {S : Type 0}
    → (String → Result String S)
    → String
    → String
    → Result String (FileUploadHandler S)
new_file_upload_handler new_session region bucket = do
  client ← new_session region
  ok (record { s3_client = client; bucket = bucket })

-- The packages: the log file, the variables of the environment once the file .env is read,
-- gorm.Open, AutoMigrate without models, db.DB, Redis, statements of SQL, and the sessions of AWS.
-- An option is the error, if there is one.
pub record Platform (D S : Type 0) : Type 0 where
  pub open_log : Option String
  pub lookup_env : String → Option String
  pub open_db : String → Result String D
  pub auto_migrate : D → Option String
  pub sql_db : D → Option String
  pub ping : RedisOptions → Option String
  pub exec : D → String → Result String D
  pub new_session : String → Result String S

pub record Pool : Type 0 where
  pub max_open_conns : ℕ
  pub max_idle_conns : ℕ
  -- In nanoseconds.
  pub conn_max_lifetime : ℕ

-- What http.Server is started with, and what the handlers are made with.
pub record Server (D S : Type 0) : Type 0 where
  pub addr : String
  -- In nanoseconds.
  pub write_timeout : ℕ
  pub read_timeout : ℕ
  pub routes : List Router
  pub cors : CorsOptions
  pub db : D
  pub pool : Pool
  pub cache : RedisOptions
  pub stripe_key : String
  pub jwt_secret : String
  pub rate_limit : RateLimitConfig
  pub suggestions : SuggestionsConfig
  pub files : FileUploadHandler S

-- The error as a result.
abbrev pub unless : {A : Type 0} → Option String → A → Result String A
unless none a = ok a
unless (some m) a = err m

module _ {D S : Type 0} (platform : Platform D S) where
  -- os.Getenv: a variable that is not set is empty.
  abbrev pub getenv : String → String
  getenv key = get_env platform.lookup_env key ""

  unfoldable pub auto_migrate : D → Result String D
  auto_migrate db = unless (platform.auto_migrate db) db

  unfoldable pub init_db : Result String D
  unfolding auto_migrate get_env
  init_db =
      let db_url = getenv "DATABASE_URL" in
      if is_empty db_url then err "DATABASE_URL environment variable is required" else do
        db ← map_err (λ m. "error opening database: " +++ m) (platform.open_db db_url)
        map_err (λ m. "error migrating database: " +++ m) (auto_migrate db)

  -- The statements that the search needs, and the database after them.
  abbrev pub init_search : D → Result String D
  init_search db =
      let (e, db') = new_suggestions_handler platform.exec db in
      elim e [ none ↦ ok db' | some m ↦ err (message m) ]

  unfoldable pub init_jwt_secret : Result String String
  unfolding get_env
  init_jwt_secret =
      let jwt_secret = getenv "JWT_SECRET" in
      if is_empty jwt_secret
      then err "JWT_SECRET environment variable is required"
      else ok jwt_secret

  -- main up to ListenAndServe; an error is what log.Fatal prints before the program ends.
  unfoldable pub start_up : Result String (Server D S)
  unfolding init_db init_jwt_secret new_redis_cache_service new_cache_config new_suggestions_handler
      new_file_upload_handler get_port get_env
  start_up = do
    opened ← unless platform.open_log tt
    db ← map_err (λ m. "Failed to connect to database:" +++ m) init_db
    pooled ←
        map_err (λ m. "Failed to get underlying *sql.DB instance:" +++ m)
          (unless (platform.sql_db db) tt)
    cache ←
        map_err (λ m. "Failed to initialize cache service")
          (new_redis_cache_service platform.ping (new_cache_config platform.lookup_env))
    jwt_secret ← init_jwt_secret
    db' ← map_err (λ m. "Failed to initialize search capabilities: " +++ m) (init_search db)
    files ←
        map_err (λ m. "Error with file handler")
          (new_file_upload_handler platform.new_session "eu-north-1" "properties-photos")
    ok (record {
      addr = ":" +++ get_port (getenv "PORT");
      write_timeout = 15_000_000_000;
      read_timeout = 15_000_000_000;
      routes = routers;
      cors = cors_options;
      db = db';
      pool = record {
        max_open_conns = 25;
        max_idle_conns = 25;
        conn_max_lifetime = 300_000_000_000;
      };
      cache = cache;
      stripe_key = getenv "STRIPE_SECRET_KEY";
      jwt_secret = jwt_secret;
      rate_limit = new_rate_limit_config;
      suggestions = shipped_config;
      files = files;
    })
