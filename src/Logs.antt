-- ===== src/Logs.antt =====
-- The log of requests: internal/middleware/request_logger.go,
-- internal/services/request_log_service.go, internal/repository/request_log_repository.go,
-- internal/api/handlers/request_log_handler.go, and the loop of cmd/api/main.go that deletes old
-- logs.
pub mod Recording
pub mod Sweeps
use landmark_api.Common.{
  ℕ, ◌+◌, String, Bool, Option, none, some, List, [], ◌∷◌, Result, ok, err, map_err, if◌then◌else◌,
  ◌==◌, ◌&&◌, not, eqb, leb, ltb, length,
}
use landmark_api.Common.Text.{is_empty, split, ◌+++◌}
use landmark_api.Calendar.{Time, before, sub_month, twelve_hours_before}
use landmark_api.Errors.{Error, driver}
use landmark_api.Models.{Uuid, User, RequestLog}
use landmark_api.Database.{Table, with_where, with_order}
use landmark_api.Http.{Request, Context, Writer, Handler, set, http_error, observed}
use landmark_api.Http.Responses.{encode}
use landmark_api.Landmarks.Params.{get_query}
use landmark_api.Repository.{inserted}

abbrev pub status_success : String
status_success = "SUCCESS"

abbrev pub status_error : String
status_error = "ERROR"

-- timestamp BETWEEN from AND to
abbrev pub between : Time → Time → Time → Bool
between from to t = not (before t from) && not (before to t)

-- The part at an index, which the caller has compared with the length.
abbrev part : List String → ℕ → String
part [] n = ""
part (p ∷ parts) ℕ.zero = p
part (p ∷ parts) (ℕ.suc n) = part parts n

-- createRequestSummary: `few` is rand.Intn(16) and `many` is rand.Intn(51), and `show` is %d.
unfoldable pub create_request_summary : (ℕ → String) → ℕ → ℕ → String → String
create_request_summary show few many path =
    let parts = split b'/' path in
    let n = length parts in
    let topic = part parts 4 in
    let subject = part parts 5 in
    if leb 4 n && (part parts 1 == "api" && (part parts 2 == "v1" && part parts 3 == "landmarks"))
    then (if ltb 5 n && topic == "country"
        then "Explored "
          +++ (show (few + 5) +++ (" landmarks across the beautiful country of " +++ subject))
        else if ltb 5 n && topic == "city"
        then "Discovered "
          +++ (show (few + 5) +++ (" fascinating landmarks in the vibrant city of " +++ subject))
        else if ltb 5 n && topic == "name"
        then "Searched for landmark by name: " +++ subject
        else if ltb 5 n && topic == "category"
        then "Explored "
          +++ (show (few + 5) +++ (" landmarks in the " +++ (subject +++ " category")))
        else if eqb n 4
        then "Retrieved overview of " +++ (show (many + 50) +++ " landmarks")
        else "Processed landmarks data request")
    else "API request"

-- getTimeRange: `parse` is time.Parse of RFC 3339, in UTC; a text that it refuses is passed over.
unfoldable pub get_time_range : (String → Option Time) → Time → List (String × String) → Time × Time
get_time_range parse now query =
    (given (get_query "from" query) (sub_month now), given (get_query "to" query) now)
  where
    given : String → Time → Time
    given s default = if is_empty s then default else elim (parse s) [ none ↦ default | some t ↦ t ]

module _ {LS : Type 0} (logs : Table LS RequestLog) where
  unfoldable pub create : RequestLog → LS → Option Error × LS
  create log s = inserted driver s (logs.create s log)

  unfoldable pub get_user_logs : String → Time → Time → LS → Result Error (List RequestLog)
  get_user_logs uid from to s = map_err driver (
      logs.find s
        (with_order (λ log. log.user_id == uid && between from to log.timestamp) "timestamp desc"))

  unfoldable pub get_endpoint_logs : String → Time → Time → LS → Result Error (List RequestLog)
  get_endpoint_logs endpoint from to s = map_err driver (
      logs.find s (
        with_order (λ log. log.endpoint == endpoint && between from to log.timestamp)
          "timestamp desc"))

  unfoldable pub delete_old_logs : Time → LS → Option Error × LS
  delete_old_logs now s =
      elim (logs.delete s (λ log. before log.timestamp (twelve_hours_before now))) [
        | err m ↦ (some (driver m), s)
        | ok done ↦ (none, done.0)
      ]

  -- LogRequest of the service.
  unfoldable pub log_request :
      Time → String → String → String → ℕ → String → String → LS → Option Error × LS
  unfolding create
  log_request now uid endpoint method status_code status summary s =
      create
        (record {
          user_id = uid;
          endpoint = endpoint;
          method = method;
          status = status;
          status_code = status_code;
          summary = summary;
          timestamp = now;
        })
        s

  -- LogRequest of the middleware, around a handler over `W`, by the context's user: an error of the
  -- log is only printed.
  unfoldable pub log_request_of :
      {W : Type 0}
      → (Uuid → String)
      → (ℕ → String)
      → ℕ
      → ℕ
      → Time
      → Handler W
      → Request
      → Context
      → Writer
      → W × LS
      → Option User
      → Writer × (W × LS)
  unfolding create_request_summary log_request observed
  log_request_of uuid_string show few many now next r ctx w (s, ls) none =
      let (v, s') = next r ctx w s in (v, (s', ls))
  log_request_of uuid_string show few many now next r ctx w (s, ls) (some user) =
      let summary = create_request_summary show few many r.path in
      let (code, (v, s')) = observed next r ctx w s in
      let status = if leb 400 code then status_error else status_success in
      let (e, ls') = log_request now (uuid_string user.id) r.path r.method code status summary ls in
      (v, (s', ls'))

  unfoldable pub log_request_middleware :
      {W : Type 0} → (Uuid → String) → (ℕ → String) → ℕ → ℕ → Time → Handler W → Handler (W × LS)
  unfolding log_request_of
  log_request_middleware uuid_string show few many now next r ctx w s =
      log_request_of uuid_string show few many now next r ctx w s ctx.user

  -- GetUserLogs of the handler.
  unfoldable pub get_user_logs_handler :
      (Uuid → String)
      → (String → Option Time)
      → (List RequestLog → Option String)
      → Time
      → Handler LS
  unfolding get_time_range get_user_logs
  get_user_logs_handler uuid_string parse marshal now r ctx w s = elim ctx.user [
    | none ↦ (http_error "Unauthorized" 401 w, s)
    | some user ↦
        let (from, to) = get_time_range parse now r.query in
        elim (get_user_logs (uuid_string user.id) from to s) [
          | err e ↦ (http_error "Error fetching logs" 500 w, s)
          | ok found ↦ (encode marshal found (set "Content-Type" "application/json" w), s)
        ]
  ]

  -- One round of the loop in `main`: an error is only printed.
  unfoldable pub sweep : Time → LS → LS
  unfolding delete_old_logs
  sweep now s = let (e, s') = delete_old_logs now s in s'
