-- ===== src/Tests/Uptime.antt =====
-- What the uptime service knows after three requests.
use landmark_api.Common.{true, false, ◌≡◌, ◌-◌, refl, [], ◌∷◌, drop, length}
use landmark_api.Calendar.{zero_time}
use landmark_api.Uptime.{UptimeService}
use landmark_api.Uptime.Window.{History, times, after_requests, record_request-window}

abbrev started : UptimeService
started = record {
  downtime = 0;
  last_downtime = zero_time;
  response_times = [];
  error_count = 0;
  total_requests = 0;
}

abbrev history : History
history = (30, false) ∷ (20, true) ∷ (10, false) ∷ []

record_request-window_example :
    ((after_requests started history).response_times
      ≡ drop (length (times history) - 1000) (times history))
    × ((after_requests started history).total_requests ≡ 3)
    × ((after_requests started history).error_count ≡ 1)
record_request-window_example = record_request-window started history refl refl refl
