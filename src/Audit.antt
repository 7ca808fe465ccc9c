-- ===== src/Audit.antt =====
-- The log of what administrators do: internal/services/audit_log_service.go,
-- internal/repository/audit_log_repository.go and internal/api/handlers/audit_log_handler.go.
pub mod Pages
use landmark_api.Common.{
  ℕ, String, Bool, true, Option, none, some, List, Result, ok, err, map_err, ◌>>=◌, if◌then◌else◌,
}
use landmark_api.Common.Int.{ℤ, pos, page_offset, below_one}
use landmark_api.Calendar.{Time}
use landmark_api.Errors.{Error, driver}
use landmark_api.Models.{AuditLog}
use landmark_api.Database.{Table, Query, with_where}
use landmark_api.Http.{Handler}
use landmark_api.Http.Responses.{respond_with_json, respond_with_error}
use landmark_api.Landmarks.Params.{get_query, atoi}
use landmark_api.Repository.{inserted}

-- {"logs": …, "total": …, "page": …}, or {"error": message}.
pub data Answer : Type 0 where
  listing : List AuditLog → ℕ → ℤ → Answer
  refusal : String → Answer

-- The query for the rows from an offset on, newest first.
abbrev pub page_query : ℤ → ℤ → Query AuditLog
page_query offset limit = record {
  matches = λ log. true;
  order = some "timestamp DESC";
  offset = some offset;
  limit = some limit;
}

module _ {S : Type 0} (logs : Table S AuditLog) where
  -- ListAuditLogs, and GetAuditLogs of the service.
  unfoldable pub list_audit_logs : ℤ → ℤ → S → Result Error (List AuditLog × ℕ)
  list_audit_logs page page_size s = do
    total ← map_err driver (logs.total s (with_where (λ log. true)))
    found ← map_err driver (logs.find s (page_query (page_offset page page_size) page_size))
    ok (found, total)

  -- CreateAuditLog of the service and of the repository.
  unfoldable pub create_audit_log :
      Time → ℕ → String → String → String → String → S → Option Error × S
  create_audit_log now admin_id action entity_type entity_id details s = inserted driver s (
      logs.create s (record {
        admin_id = admin_id;
        action = action;
        entity_type = entity_type;
        entity_id = entity_id;
        details = details;
        timestamp = now;
      }))

  -- ListAuditLogs of the handler.
  unfoldable pub list_audit_logs_handler : (Answer → Option String) → Handler S
  unfolding list_audit_logs respond_with_json respond_with_error
  list_audit_logs_handler marshal r ctx w s =
      let asked_page = atoi (get_query "page" r.query) in
      let page = if below_one asked_page then pos 1 else asked_page in
      let asked_size = atoi (get_query "pageSize" r.query) in
      let page_size = if below_one asked_size then pos 20 else asked_size in
      elim (list_audit_logs page page_size s) [
        | err e ↦ (respond_with_error marshal Answer.refusal 500 "Error fetching audit logs" w, s)
        | ok found ↦ (respond_with_json marshal 200 (Answer.listing found.0 found.1 page) w, s)
      ]
