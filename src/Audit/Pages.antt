-- ===== src/Audit/Pages.antt =====
-- The pages of the audit log.
use landmark_api.Common.{
  ℕ, zero, suc, ◌+◌, ◌≡◌, List, [], ◌∷◌, ◌++◌, Result, ok, ◌>>=◌, leb, if◌then◌else◌, take, drop,
}
use landmark_api.Common.Int.{pos}
use landmark_api.Common.Unique.{Unique}
use landmark_api.Calendar.{stamp}
use landmark_api.Errors.{Error}
use landmark_api.Models.{AuditLog}
use landmark_api.Database.{Table}
use landmark_api.Audit.{list_audit_logs, page_query}

-- The audit log as an administrator reads it: the newest entry first.
unfoldable pub put : AuditLog → List AuditLog → List AuditLog
put log [] = log ∷ []
put log (x ∷ xs) =
    let rest = put log xs in
    if leb (stamp x.timestamp) (stamp log.timestamp) then log ∷ x ∷ xs else x ∷ rest

unfoldable pub newest_first : List AuditLog → List AuditLog
unfolding put
newest_first [] = []
newest_first (x ∷ xs) = put x (newest_first xs)

-- The times of the entries.
abbrev stamps : List AuditLog → List ℕ
stamps [] = []
stamps (log ∷ logs) = stamp log.timestamp ∷ stamps logs

module _ {S : Type 0} (logs : Table S AuditLog) where
  -- ORDER BY with OFFSET and LIMIT: it fixes which rows are given where no two have the same time.
  pub record OrderLaws : Type 0 where
    pub find_page :
        (s : S) (offset limit : ℕ) (found : List AuditLog)
        → Unique (stamps (logs.rows s))
        → logs.find s (page_query (pos offset) (pos limit)) ≡ ok found
        → found ≡ take limit (drop offset (newest_first (logs.rows s)))

  -- The entries of the first pages of a size, one page after the other.
  abbrev pub read_pages : ℕ → ℕ → S → Result Error (List AuditLog)
  read_pages zero size s = ok []
  read_pages (suc n) size s = do
    before ← read_pages n size s
    page ← list_audit_logs logs (pos (n + 1)) (pos size) s
    ok (before ++ page.0)
