-- ===== src/Uptime/Monitor.antt =====
-- The anomalies, the answer and the middleware of internal/api/handlers/uptime_handler.go.
use landmark_api.Common.{
  ℕ, ◌+◌, ◌*◌, ◌/◌, String, Bool, Option, none, some, List, [], ◌∷◌, ◌++◌, if◌then◌else◌, ltb, leb,
}
use landmark_api.Common.Text.{◌+++◌}
use landmark_api.Common.Int.{ℤ, pos, sub_ℕ}
use landmark_api.Calendar.{Time}
use landmark_api.Models.{Float64}
use landmark_api.Http.{Request, Context, Writer, set, http_error}
use landmark_api.Http.Responses.{encode}
use landmark_api.Uptime.{UptimeService, push, record_request, calculate_avg_response_time}

pub record Anomaly : Type 0 where
  pub timestamp : Time
  pub description : String

-- The operations and the constants of float64 that the service uses, and the formats.
pub record Floats : Type 0 where
  pub of_int : ℤ → Float64
  pub div : Float64 → Float64 → Float64
  pub mul : Float64 → Float64 → Float64
  pub le : Float64 → Float64 → Bool
  pub lt : Float64 → Float64 → Bool
  pub hundred : Float64
  pub f0_05 : Float64
  pub f99_99 : Float64
  pub f99_9 : Float64
  pub f99_5 : Float64
  pub f99_0 : Float64
  -- fmt.Sprintf("%.2f%%", …)
  pub percent : Float64 → String
  -- Duration.String, and Format(time.RFC3339)
  pub show_duration : ℕ → String
  pub show_time : Time → String

pub record AnomalyDetector : Type 0 where
  -- In nanoseconds.
  pub avg_response_time_threshold : ℕ
  pub error_rate_threshold : Float64

pub record UptimeData : Type 0 where
  pub uptime : Float64
  pub total_uptime : ℕ
  pub last_downtime : Time

pub record UptimeResponse : Type 0 where
  pub uptime : Float64
  pub uptime_percentage : String
  pub description : String
  pub status : String
  pub total_uptime : String
  pub last_downtime : String
  pub anomalies : List Anomaly

module _ (f : Floats) where
  unfoldable pub new_anomaly_detector : AnomalyDetector
  new_anomaly_detector = record {
    avg_response_time_threshold = 500_000_000;
    error_rate_threshold = f.f0_05;
  }

  unfoldable pub detect_anomaly : Time → AnomalyDetector → ℕ → Float64 → Option Anomaly
  detect_anomaly now ad avg_response_time error_rate =
      if ltb ad.avg_response_time_threshold avg_response_time
      then some (record {
        timestamp = now;
        description = "High average response time: " +++ f.show_duration avg_response_time;
      })
      else if f.lt ad.error_rate_threshold error_rate
      then some (record {
        timestamp = now;
        description = "High error rate: " +++ f.percent (f.mul error_rate f.hundred);
      })
      else none

  abbrev keep : List Anomaly → Option Anomaly → List Anomaly
  keep anomalies none = anomalies
  keep anomalies (some a) = push 10 anomalies a

  -- One tick of monitorAnomaly: the new list of anomalies.
  unfoldable pub monitor_anomaly :
      Time → AnomalyDetector → UptimeService → List Anomaly → List Anomaly
  unfolding detect_anomaly calculate_avg_response_time
  monitor_anomaly now ad s anomalies =
      let error_rate = f.div (f.of_int (pos s.error_count)) (f.of_int (pos s.total_requests)) in
      keep anomalies (detect_anomaly now ad (calculate_avg_response_time s) error_rate)

  -- `total_time` is time.Since(s.startTime); Round(time.Second) rounds a half up.
  unfoldable pub get_uptime_data : ℕ → UptimeService → UptimeData
  get_uptime_data total_time s = record {
    uptime =
        f.mul (f.div (f.of_int (sub_ℕ total_time s.downtime)) (f.of_int (pos total_time)))
          f.hundred;
    total_uptime = (total_time + 500_000_000) / 1_000_000_000 * 1_000_000_000;
    last_downtime = s.last_downtime;
  }

  unfoldable pub get_uptime_description : Float64 → String
  get_uptime_description uptime =
      if f.le f.f99_99 uptime
      then "Rock-solid reliability"
      else if f.le f.f99_9 uptime
      then "Excellent uptime"
      else if f.le f.f99_5 uptime
      then "Very good uptime"
      else if f.le f.f99_0 uptime
      then "Good uptime"
      else "Needs improvement"

  unfoldable pub get_uptime_status : Float64 → String
  get_uptime_status uptime =
      if f.le f.f99_99 uptime
      then "Exceptional"
      else if f.le f.f99_9 uptime
      then "Excellent"
      else if f.le f.f99_5 uptime
      then "Very Good"
      else if f.le f.f99_0 uptime
      then "Good"
      else "Fair"

  -- ServeHTTP of the handler.
  unfoldable pub serve_http :
      (UptimeResponse → Option String) → ℕ → UptimeService → List Anomaly → Writer → Writer
  unfolding get_uptime_data get_uptime_description get_uptime_status encode
  serve_http marshal total_time s anomalies w =
      let d = get_uptime_data total_time s in
      encode marshal
        (record {
          uptime = d.uptime;
          uptime_percentage = f.percent d.uptime;
          description = get_uptime_description d.uptime;
          status = get_uptime_status d.uptime;
          total_uptime = f.show_duration d.total_uptime;
          last_downtime = f.show_time d.last_downtime;
          anomalies = anomalies;
        })
        (set "Content-Type" "application/json" w)

-- A handler, with whether it ends in a panic.
abbrev pub Panicking : Type 0 → Type 0
Panicking W = Request → Context → Writer → W → Bool × (Writer × W)

abbrev code_of : List ℕ → ℕ
code_of [] = 200
code_of (code ∷ codes) = code

-- The middleware: a panic is answered with 500 and counted as an error.
unfoldable pub uptime_middleware :
    {W : Type 0}
    → Panicking W
    → ℕ
    → Request
    → Context
    → Writer
    → W × UptimeService
    → Writer × (W × UptimeService)
unfolding record_request
uptime_middleware next duration r ctx w (s, u) =
    let (panicked, (v, s')) = next r ctx (record w { called = [] }) s in
    let status_code = if panicked then 500 else code_of v.called in
    let out = record v { called = v.called ++ w.called } in
    (
      if panicked then http_error "Internal Server Error" 500 out else out,
      (s', record_request duration (leb 400 status_code) u),
    )
