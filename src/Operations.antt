-- ===== src/Operations.antt =====
-- internal/api/controllers/health_check.go, internal/middleware/logger_middleware.go,
-- internal/config/cache_config.go, internal/services/weather_service.go and the part of
-- internal/services/cache_service.go that deletes by a pattern, and the port and the CORS options of
-- cmd/api/main.go.
use landmark_api.Common.{
  Bool, false, ℕ, String, Option, none, some, List, [], ◌∷◌, Result, ok, err, if◌then◌else◌, eqb,
}
use landmark_api.Common.Text.{◌+++◌, is_empty}
use landmark_api.Common.Maps.{Map}
use landmark_api.Models.{Float64}
use landmark_api.Http.{Request, Context, Writer, Handler, set, write_header, observed}
use landmark_api.Http.Responses.{encode}

pub record HealthCheckResponse : Type 0 where
  pub status : String
  pub database : String
  pub external_services : Map String

-- respondWithJSON of the controllers: unlike that of the handlers, it ends the text with a newline.
unfoldable pub respond_with_json : {P : Type 0} → (P → Option String) → ℕ → P → Writer → Writer
unfolding encode
respond_with_json marshal code payload w =
    encode marshal payload (write_header code (set "Content-Type" "application/json" w))

-- checkExternalService, by the status of the response, `none` where there is none.
unfoldable pub check_external_service : Option ℕ → String
check_external_service none = "Unreachable"
check_external_service (some status) = if eqb status 200 then "Available" else "Unavailable"

-- `connection` is the error of db.DB or of Ping, `get` is the GET of a url, and `api_key` the value
-- of OPEN_WEATHER_API_KEY.
unfoldable pub health_check_handler :
    (HealthCheckResponse → Option String)
    → Option String
    → (String → Option ℕ)
    → String
    → Writer
    → Writer
unfolding respond_with_json check_external_service
health_check_handler marshal connection get api_key w = elim connection [
  | some m ↦
      respond_with_json marshal 500
        (record {
          status = "API is running";
          database = "Database connection failed";
          external_services = [];
        })
        w
  | none ↦
      let url = "http://api.openweathermap.org/data/2.5/weather?q=London&appid=" +++ api_key in
      respond_with_json marshal 200
        (record {
          status = "API is running";
          database = "Database connection is healthy";
          external_services = ("Weather API", check_external_service (get url)) ∷ [];
        })
        w
]

-- The fields that LoggingMiddleware logs.
pub record Logged : Type 0 where
  pub method : String
  pub url : String
  pub status_code : ℕ
  pub response_time : ℕ
  pub ip : String

-- The outcome of the handler, and the log line; `elapsed` is in milliseconds.
unfoldable pub logging_middleware :
    {W : Type 0} → Handler W → ℕ → Request → Context → Writer → W → Logged × (Writer × W)
unfolding observed
logging_middleware next elapsed r ctx w s =
    let (code, out) = observed next r ctx w s in
    (
      record {
        method = r.method;
        url = r.path;
        status_code = code;
        response_time = elapsed;
        ip = r.remote_addr;
      },
      out,
    )

pub record CacheConfig : Type 0 where
  pub redis_host : String
  pub redis_port : String
  pub redis_password : String
  pub redis_db : ℕ
  -- In nanoseconds.
  pub default_ttl : ℕ

-- `lookup_env` is os.LookupEnv: a variable that is set and empty counts.
unfoldable pub get_env : (String → Option String) → String → String → String
get_env lookup_env key default_value = elim (lookup_env key) [
  | some value ↦ value
  | none ↦ default_value
]

unfoldable pub new_cache_config : (String → Option String) → CacheConfig
unfolding get_env
new_cache_config lookup_env = record {
  redis_host = get_env lookup_env "REDISHOST" "localhost";
  redis_port = get_env lookup_env "REDISPORT" "6379";
  redis_password = get_env lookup_env "REDISPASSWORD" "";
  redis_db = 0;
  default_ttl = 900_000_000_000;
}

-- DeleteByPattern over the keys that the iteration gives, with its own error at the end: the keys
-- before the first one that cannot be deleted are gone.
unfoldable pub delete_by_pattern :
    {C : Type 0}
    → (C → String → Result String C)
    → List String
    → Option String
    → C
    → Option String × C
delete_by_pattern delete [] iteration c = (iteration, c)
delete_by_pattern delete (key ∷ keys) iteration c = elim (delete c key) [
  | err m ↦ (some m, c)
  | ok c' ↦ delete_by_pattern delete keys iteration c'
]

-- FetchWeatherData: `format` is FormatFloat(…, 'f', 6, 64), `get` is the GET of a url with its body,
-- and `decode` the decoding of the body.
unfoldable pub fetch_weather_data :
    {Weather : Type 0}
    → String
    → (Float64 → String)
    → (String → Result String String)
    → (String → Result String Weather)
    → Float64
    → Float64
    → Result String Weather
fetch_weather_data api_key format get decode lat lon =
    let url =
      "http://api.openweathermap.org/data/2.5/weather?lat="
      +++ (format lat +++ ("&lon=" +++ (format lon +++ ("&units=metric&appid=" +++ api_key)))) in
    elim (get url) [ err m ↦ err m | ok body ↦ decode body ]

-- getPort of main.go, by the value of PORT.
unfoldable pub get_port : String → String
get_port port = if is_empty port then "5050" else port

pub record CorsOptions : Type 0 where
  pub allowed_origins : List String
  pub allowed_methods : List String
  pub allowed_headers : List String
  pub exposed_headers : List String
  pub allow_credentials : Bool
  pub max_age : ℕ

-- The options that main.go passes to cors.New.
abbrev pub cors_options : CorsOptions
cors_options = record {
  allowed_origins = "*" ∷ [];
  allowed_methods = "GET" ∷ "POST" ∷ "PUT" ∷ "PATCH" ∷ "DELETE" ∷ "OPTIONS" ∷ [];
  allowed_headers =
      "Accept" ∷ "Authorization" ∷ "Content-Type" ∷ "X-CSRF-Token" ∷ "X-API-Key" ∷ "*" ∷ [];
  exposed_headers = "Link" ∷ [];
  allow_credentials = false;
  max_age = 300;
}
