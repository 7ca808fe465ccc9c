-- ===== src/Auth/ByEmail.antt =====
-- RegisterWithEmail of internal/services/auth_service.go: a password that is drawn and mailed.
pub mod Login
use landmark_api.Common.{
  ℕ, zero, suc, String, true, Option, none, some, Result, ok, err, if◌then◌else◌, leb,
}
use landmark_api.Common.Text.{◌+++◌}
use landmark_api.Calendar.{Time}
use landmark_api.Errors.{Error, driver, text}
use landmark_api.Models.{User, Subscription, ApiKey}
use landmark_api.Database.{Table}
use landmark_api.Auth.{Crypto, Db, Fresh, new_user, enrol}

abbrev charset : String
charset = "abcdefghijklmnopqrstuvwxyzABCDEFGHIJKLMNOPQRSTUVWXYZ0123456789!@#$%^&*()_+"

-- The character at an index, as a text; the index is less than the length.
char_at : String → ℕ → String
char_at String.[] n = ""
char_at (String.◌∷◌ c s) zero = String.◌∷◌ c String.[]
char_at (String.◌∷◌ c s) (suc n) = char_at s n

-- generateRandomPassword. `draw i` is the number below len(charset) that Intn gives for place i.
unfoldable pub generate_random_password : ℕ → (ℕ → ℕ) → String
unfolding char_at
generate_random_password zero draw = ""
generate_random_password (suc n) draw =
    char_at charset (draw zero) +++ generate_random_password n (λ i. draw (suc i))

-- The mail, with the two texts that are put into its fixed HTML.
pub record PasswordMail : Type 0 where
  pub from : String
  pub subject : String
  pub to : String
  pub email : String
  pub password : String

-- The fields of the response of sendgrid that are read.
pub record MailResponse : Type 0 where
  pub status_code : ℕ
  pub body : String

-- Send of sendgrid: the response, `none` for a nil pointer, and the error.
abbrev pub Sender : Type 0
Sender = PasswordMail → Option MailResponse × Option String

abbrev pub password_mail : String → String → PasswordMail
password_mail email password = record {
  from = "noreply@landmark-api.com";
  subject = "Welcome to Landmark API Family!";
  to = email;
  email = email;
  password = password;
}

-- The error of Send is only printed. The outer `none` is the panic on a nil response.
unfoldable pub send_password_email : Sender → String → String → Option (Option Error)
send_password_email send email password =
    let (response, e) = send (password_mail email password) in
    elim response [
      | none ↦ none
      | some r ↦
          if leb 400 r.status_code
          then some (some (text ("error sending email: " +++ r.body)))
          else some none
    ]

module _ {US SS KS : Type 0} (users : Table US User) (subs : Table SS Subscription)
    (keys : Table KS ApiKey) (c : Crypto) where
  -- The user and the error that are returned, `none` for a panic, and what is stored.
  unfoldable pub register_with_email :
      Fresh
      → Time
      → (ℕ → ℕ)
      → Sender
      → String
      → Db US SS KS
      → Option (Option User × Option Error) × Db US SS KS
  register_with_email f now draw send email db =
      let password = generate_random_password 12 draw in
      elim (c.generate_from_password password) [
        | err m ↦ (some (none, some (driver m)), db)
        | ok hash ↦
            let u : User = record (new_user f.user_id "" email hash now) { on_boarding = true } in
            let (user, e, db') = enrol users subs keys c f now u db in
            elim e [
              | some e ↦ (some (user, some e), db')
              | none ↦ elim (send_password_email send email password) [
                | none ↦ (none, db')
                | some e ↦ (some (user, none), db')
              ]
            ]
      ]
