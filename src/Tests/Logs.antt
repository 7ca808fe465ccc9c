-- ===== src/Tests/Logs.antt =====
-- The logs of requests and of administrators at concrete values.
use landmark_api.Common.{
  ℕ, ◌+◌, ◌⊎◌, err, String, ◌≡◌, refl, ap, Bool, true, false, Option, none, some, List, [], ◌∷◌,
  Result, ok, if◌then◌else◌, ◌==◌, eqb, leb, take, drop, filter, count, map, All, arith,
}
use landmark_api.Common.Int.{ℤ, pos, negsuc}
use landmark_api.Calendar.{Time, IsDate}
use landmark_api.Models.{User, Subscription, RequestLog, AuditLog, new_rate_limit_config}
use landmark_api.Database.{Table, TableLaws}
use landmark_api.Database.Memory
use landmark_api.Http.{Handler, Context, new_writer, http_error}
use landmark_api.Logs.{delete_old_logs, sweep}
use landmark_api.RateLimit.{UsageService, Limited}
use landmark_api.Middleware.Logging.{logged_route, logged_route_lem, IsAllowed, IsServed}
use landmark_api.Errors.{Error, invalid_token}
use landmark_api.Logs.Sweeps.{History, IsRecent, delete_old_logs-gone}
use landmark_api.Audit.{page_query}
use landmark_api.Audit.Pages.{newest_first}
use landmark_api.Tests.Fixtures.{alice, alice_free, today, last_spring, request}

abbrev logs : Table (List RequestLog) RequestLog
logs = Memory.table (λ a b. a.user_id == b.user_id)

abbrev missing_page : Handler ℕ
missing_page r ctx w n = (http_error "no such page" 404 w, n)

-- One request of one address, which is not limited.
abbrev idle : Limited (ℕ × List RequestLog)
idle = record { ip_limits = []; world = (41, []) }

abbrev usage : UsageService ℕ
usage = record {
  get_current_usage = λ uid plan n. ok (record {
    current_count = n;
    limit = pos 1000;
    remaining_requests = pos 959;
    period_end = today;
  });
  increment_usage = λ uid n. (none, n + 1);
}

abbrev holder_of : String → Limited ℕ → Result Error (User × Subscription)
holder_of key s = if key == "key-of-alice" then ok (alice, alice_free) else err invalid_token

abbrev nobody : Context
nobody = record { user = none; subscription = none }

abbrev log_laws : TableLaws logs
log_laws = Memory.laws (λ a b. a.user_id == b.user_id)

logged_route_lem_example :
    ((¬ (
        IsAllowed holder_of usage new_rate_limit_config some
          (λ n. "")
          (λ t. "")
          logs
          (λ id. "1")
          (λ n. "7")
          2
          3
          today
          log_laws
          5_000
          missing_page
          request
          nobody
          new_writer
          idle))
      × ((logged_route holder_of usage new_rate_limit_config some
            (λ n. "")
            (λ t. "")
            logs
            (λ id. "1")
            (λ n. "7")
            2
            3
            today
            5_000
            missing_page
            request
            nobody
            new_writer
            idle).1.world
          ≡ (41, [])))
    ⊎ IsServed holder_of usage new_rate_limit_config some
        (λ n. "")
        (λ t. "")
        logs
        (λ id. "1")
        (λ n. "7")
        2
        3
        today
        log_laws
        5_000
        missing_page
        request
        nobody
        new_writer
        idle
logged_route_lem_example =
    logged_route_lem holder_of usage new_rate_limit_config some (λ n. "") (λ t. "") logs (λ id. "1")
      (λ n. "7") 2 3 today log_laws 5_000 missing_page request nobody new_writer idle refl

abbrev old_log : RequestLog
old_log = record {
  user_id = "1";
  endpoint = "/api/v1/landmarks";
  method = "GET";
  status = "SUCCESS";
  status_code = 200;
  summary = "";
  timestamp = last_spring;
}

abbrev new_log : RequestLog
new_log = record old_log { timestamp = today }

today-IsDate : IsDate today
unfolding landmark_api.Calendar.days_in
today-IsDate = record {
  month_pos = omega arith;
  month_le = omega arith;
  day_pos = omega arith;
  day_le = ground arith;
  nanos_lt = omega arith;
}

-- The log of last spring is deleted; the one of today stays, and one more is written.
delete_old_logs-gone_example :
    All
      (IsRecent logs (Memory.laws (λ a b. a.user_id == b.user_id)) today)
      (logs.rows (new_log ∷ new_log ∷ []))
unfolding delete_old_logs landmark_api.Calendar.stamp landmark_api.Calendar.twelve_hours_before
    sweep landmark_api.Logs.create
delete_old_logs-gone_example =
    delete_old_logs-gone logs (Memory.laws (λ a b. a.user_id == b.user_id)) (new_log ∷ old_log ∷ [])
      today (new_log ∷ []) today (new_log ∷ new_log ∷ []) today-IsDate (omega arith) refl
      (History.swept today
        (History.logged new_log History.begun (omega arith) today-IsDate (omega arith))
        (omega arith))

abbrev number_of : Option ℤ → ℕ → ℕ
number_of (some (pos n)) default = n
number_of _ default = default

-- A table in memory that looks at the offset and the limit.
abbrev audit_logs : Table (List AuditLog) AuditLog
audit_logs = record (Memory.table (λ a b. eqb a.admin_id b.admin_id)) {
  find = λ s q. ok (take (number_of q.limit 0) (drop (number_of q.offset 0) (newest_first s)));
}

abbrev old_entry : AuditLog
old_entry = record {
  admin_id = 1;
  action = "CREATE";
  entity_type = "LANDMARK";
  entity_id = "7";
  details = "";
  timestamp = last_spring;
}

abbrev new_entry : AuditLog
new_entry = record old_entry { action = "DELETE"; timestamp = today }
