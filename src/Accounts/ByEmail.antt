-- ===== src/Accounts/ByEmail.antt =====
-- RegisterWithEmail of internal/api/handlers/auth_handler.go, below the uptime middleware.
use landmark_api.Common.{
  ℕ, String, true, false, Option, none, some, ◌≡◌, refl, ◌==◌, not, if◌then◌else◌,
}
use landmark_api.Calendar.{Time}
use landmark_api.Models.{User, Subscription, ApiKey}
use landmark_api.Database.{Table}
use landmark_api.Auth.{Crypto, Db, Fresh}
use landmark_api.Auth.ByEmail.{Sender, register_with_email}
use landmark_api.Accounts.{Answer, registration_answer, id_and_email}
use landmark_api.Http.{Request, Context, Writer, http_error}
use landmark_api.Uptime.{UptimeService, record_request}
use landmark_api.Uptime.Monitor.{Panicking, uptime_middleware}

module _ {US SS KS : Type 0} (users : Table US User) (subs : Table SS Subscription)
    (keys : Table KS ApiKey) (c : Crypto) (marshal : Answer → Option String) where
  -- `body` is the email, `none` where the decoding fails.
  unfoldable pub register_with_email_handler :
      Fresh → Time → (ℕ → ℕ) → Sender → Option String → Panicking (Db US SS KS)
  register_with_email_handler f now draw send body r ctx w db =
      if not (r.method == "POST")
      then (false, (http_error "Method not allowed" 405 w, db))
      else elim body [
        | none ↦ (false, (http_error "Invalid request body" 400 w, db))
        | some email ↦
            let (outcome, db') = register_with_email users subs keys c f now draw send email db in
            elim outcome [
              | none ↦ (true, (w, db'))
              | some (user, e) ↦ (
                false,
                (
                  registration_answer users subs keys c marshal
                      (id_and_email users subs keys c marshal) user e w,
                  db',
                ),
              )
            ]
      ]

  -- A registration that panics is answered with 500 and counted as an error, and what was stored
  -- before the panic stays stored.
  pub lost_mail :
      (f : Fresh) (now : Time) (draw : ℕ → ℕ) (send : Sender) (email : String) (duration : ℕ)
      (r : Request) (ctx : Context) (w : Writer) (db : Db US SS KS) (up : UptimeService)
      → let after = register_with_email users subs keys c f now draw send email db in
        let handler = register_with_email_handler f now draw send (some email) in
        (r.method == "POST") ≡ true
        → after.0 ≡ none
        → uptime_middleware handler duration r ctx w (db, up)
          ≡ (http_error "Internal Server Error" 500 w, (after.1, record_request duration true up))
  unfolding register_with_email_handler uptime_middleware http_error
  lost_mail f now draw send email duration r ctx w db up posted panicked =
      rw (posted, register_with_email_handler, uptime_middleware) (rw panicked refl)
