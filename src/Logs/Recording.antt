-- ===== src/Logs/Recording.antt =====
-- What LogRequest of internal/middleware/request_logger.go writes.
use landmark_api.Common.{
  ℕ, String, ◌≡◌, ◌⊎◌, ap, sym, ◌∙◌, inl, inr, refl, Option, none, some, err, List, [], ◌∷◌, ◌++◌,
  Result-cases, if◌then◌else◌, leb,
}
use landmark_api.Calendar.{Time}
use landmark_api.Models.{Uuid, User, RequestLog}
use landmark_api.Database.{Table, TableLaws}
use landmark_api.Http.{Request, Context, Writer, Handler, observed}
use landmark_api.Logs.{
  log_request_middleware, log_request_of, log_request, create, create_request_summary, status_error,
  status_success,
}

append-nil : (codes : List ℕ) → codes ++ [] ≡ codes
append-nil [] = refl
append-nil (c ∷ codes) = ap (λ cs. c ∷ cs) (append-nil codes)

observed-fresh :
    {W : Type 0} (next : Handler W) (r : Request) (ctx : Context) (w : Writer) (s : W)
    → w.called ≡ []
    → (observed next r ctx w s).1 ≡ next r ctx w s
unfolding observed
observed-fresh next r ctx w s fresh =
    let same : record w { called = [] } ≡ w = ap (λ c. record w { called = c }) (sym fresh) in
    let out = next r ctx (record w { called = [] }) s in
    let codes : out.0.called ++ w.called ≡ out.0.called = rw fresh (append-nil out.0.called) in
    ap (λ c. (record out.0 { called = c }, out.1)) codes ∙ ap (λ v. next r ctx v s) same

module _ {LS : Type 0} (logs : Table LS RequestLog) (laws : TableLaws logs) where
  -- The entry is the newest of the log, or the statement that writes it has failed and the log is
  -- as it was.
  abbrev pub IsWritten : RequestLog → LS → LS → Type 0
  IsWritten log ls ls' =
      ((ls' ≡ ls) × (m : String) × (logs.create ls log ≡ err m))
      ⊎ (logs.rows ls' ≡ log ∷ logs.rows ls)

  pub created : (log : RequestLog) (ls : LS) → IsWritten log ls (create logs log ls).1
  unfolding create
  created log ls = elim (Result-cases (logs.create ls log)) [
    | inl (ls', e) ↦ inr (rw e (laws.create_rows ls log ls' e))
    | inr (m, e) ↦ inl (rw e refl, m, e)
  ]

module _ {LS W : Type 0} (logs : Table LS RequestLog) (laws : TableLaws logs)
    (uuid_string : Uuid → String) (show : ℕ → String) (few many : ℕ) (now : Time) (next : Handler W)
    (r : Request) (ctx : Context) (w : Writer) (s : W) (ls : LS) where
  -- The entry for a request of the user that is answered with the code.
  abbrev pub entry : User → ℕ → RequestLog
  entry user code = record {
    user_id = uuid_string user.id;
    endpoint = r.path;
    method = r.method;
    status = if leb 400 code then status_error else status_success;
    status_code = code;
    summary = create_request_summary show few many r.path;
    timestamp = now;
  }

  -- What is answered and kept for a user, or for nobody.
  abbrev IsLogged : Option User → Writer × (W × LS) → Type 0
  IsLogged none out = out.1.1 ≡ ls
  IsLogged (some user) out = IsWritten logs laws (entry user (observed next r ctx w s).0) ls out.1.1

  abbrev pub IsRecorded : Option User → Writer × (W × LS) → Type 0
  IsRecorded user out =
      (out.0 ≡ (next r ctx w s).0) × (out.1.0 ≡ (next r ctx w s).1) × IsLogged user out

  recorded :
      w.called ≡ []
      → (user : Option User)
      → IsRecorded user
          (log_request_of logs uuid_string show few many now next r ctx w (s, ls) user)
  unfolding log_request_of log_request
  recorded fresh none = (refl, refl, refl)
  recorded fresh (some user) =
      let same = observed-fresh next r ctx w s fresh in
      (ap (λ o. o.0) same, ap (λ o. o.1) same, created logs laws _ ls)

  -- The client is answered, and the world changed, as without the log. The log gets one entry for a
  -- request of a known user, with the code that the handler has set, unless the statement fails,
  -- and none for any other request.
  pub log_request_middleware_lem :
      w.called ≡ []
      → IsRecorded ctx.user
          (log_request_middleware logs uuid_string show few many now next r ctx w (s, ls))
  unfolding log_request_middleware
  log_request_middleware_lem fresh = recorded fresh ctx.user
