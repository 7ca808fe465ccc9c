-- ===== src/Uptime.antt =====
-- The records of UptimeService in internal/api/handlers/uptime_handler.go. Durations are
-- nanoseconds.
pub mod Window
pub mod Monitor
use landmark_api.Common.{ℕ, ◌+◌, ◌/◌, Bool, List, [], ◌∷◌, ◌++◌, if◌then◌else◌, ltb, leb, length}
use landmark_api.Calendar.{Time}

pub record UptimeService : Type 0 where
  pub downtime : ℕ
  pub last_downtime : Time
  pub response_times : List ℕ
  pub error_count : ℕ
  pub total_requests : ℕ

-- `s[1:]`
abbrev pub without_first : {A : Type 0} → List A → List A
without_first [] = []
without_first (x ∷ xs) = xs

-- Appends, and drops the oldest if there are more than `n`.
abbrev pub push : {A : Type 0} → ℕ → List A → A → List A
push n xs x = let ys = xs ++ x ∷ [] in if ltb n (length ys) then without_first ys else ys

unfoldable pub record_request : ℕ → Bool → UptimeService → UptimeService
record_request response_time is_error s = record s {
  response_times = push 1000 s.response_times response_time;
  total_requests = s.total_requests + 1;
  error_count = if is_error then s.error_count + 1 else s.error_count;
}

unfoldable pub record_downtime : Time → ℕ → UptimeService → UptimeService
record_downtime now duration s = record s { downtime = s.downtime + duration; last_downtime = now }

abbrev total_of : List ℕ → ℕ
total_of [] = 0
total_of (x ∷ xs) = x + total_of xs

unfoldable pub calculate_avg_response_time : UptimeService → ℕ
calculate_avg_response_time s = average s.response_times
  where
    average : List ℕ → ℕ
    average [] = 0
    average (x ∷ xs) = total_of (x ∷ xs) / length (x ∷ xs)
