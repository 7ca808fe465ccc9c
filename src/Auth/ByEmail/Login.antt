-- ===== src/Auth/ByEmail/Login.antt =====
-- Registering by an email and logging in with the password of the mail.
use landmark_api.Common.{
  ℕ, String, ◌≡◌, ◌≢◌, ◌↔◌, refl, ok, some, none, Option, true, false, inl, inr, arith,
  Option-cases, ◌==◌, count,
}
use landmark_api.Calendar.{Time, is_zero}
use landmark_api.Errors.{Error}
use landmark_api.Models.{User, Subscription, ApiKey}
use landmark_api.Database.{Table, TableLaws}
use landmark_api.Users
use landmark_api.Auth.{Crypto, Db, Fresh, login, verify_token, new_user, enrol}
use landmark_api.Auth.Session.{CryptoLaws, Answers, stored_user, enrol-Registered, login_verified}
use landmark_api.Auth.ByEmail.{
  Sender, generate_random_password, password_mail, send_password_email, register_with_email,
}

-- The error of an outcome; a panic has none.
abbrev pub error_of : Option (Option User × Option Error) → Option Error
error_of none = none
error_of (some (user, e)) = e

module _ {US SS KS : Type 0} (users : Table US User) (subs : Table SS Subscription)
    (keys : Table KS ApiKey) (c : Crypto) (ul : TableLaws users) (sl : TableLaws subs)
    (cl : CryptoLaws c) where
  -- Where the hash is made, the rest is the enrolment and the mail.
  enrolled :
      (f : Fresh) (now : Time) (draw : ℕ → ℕ) (send : Sender) (email : String) (db : Db US SS KS)
      (hash : String)
      → let password = generate_random_password 12 draw in
        let new : User = record (new_user f.user_id "" email hash now) { on_boarding = true } in
        let after = register_with_email users subs keys c f now draw send email db in
        c.generate_from_password password ≡ ok hash
        → error_of after.0 ≡ none
        → ((enrol users subs keys c f now new db).1 ≡ none)
          × (after.1 ≡ (enrol users subs keys c f now new db).2)
          × ((after.0 ≡ none) ↔ ((send (password_mail email password)).0 ≡ none))
  unfolding register_with_email send_password_email
  enrolled f now draw send email db hash hashed done =
      let password = generate_random_password 12 draw in
      let new : User = record (new_user f.user_id "" email hash now) { on_boarding = true } in
      elim (Option-cases (enrol users subs keys c f now new db).1) [
        | inr (e, failing) ↦ absurd (ground (arith, hashed, failing, done))
        | inl made ↦ elim (Option-cases (send (password_mail email password)).0) [
          | inl silent ↦ ground (arith, hashed, made, silent)
          | inr (r, answered) ↦ ground (arith, hashed, made, answered)
        ]
      ]

  -- Whoever registers by an email without an error, under an email and an id that no user has, can
  -- log in at once with the password of the mail, and VerifyToken accepts the token and returns the
  -- stored user, who is to be on-boarded: also where RegisterWithEmail panics, which it does if and
  -- only if the mail service gives no response. The tables answer when they are read, and the laws
  -- of bcrypt, jwt and uuid hold.
  pub register_with_email-login :
      (f : Fresh) (now : Time) (draw : ℕ → ℕ) (send : Sender) (email secret : String)
      (db : Db US SS KS) (hash : String)
      → let mail = password_mail email (generate_random_password 12 draw) in
        let after = register_with_email users subs keys c f now draw send email db in
        let new : User = record (new_user f.user_id "" email hash now) { on_boarding = true } in
        c.generate_from_password mail.password ≡ ok hash
        → f.subscription_id ≢ 0
        → is_zero now ≡ false
        → count (λ v. v.email == email) (users.rows db.users) ≡ 0
        → count (Users.has_id f.user_id) (users.rows db.users) ≡ 0
        → error_of after.0 ≡ none
        → Answers users after.1.users
        → Answers subs after.1.subs
        → ((after.0 ≡ none) ↔ ((send mail).0 ≡ none))
          × (token : String) × (s : Subscription) × (login users subs keys c secret now mail.to
                mail.password after.1
              ≡ ok (token, false))
          × (verify_token users subs keys c secret now token after.1
              ≡ some (ok (stored_user f.user_id now new, s)))
  register_with_email-login f now draw send email secret db hash hashed nz started new_email new_id
        done users_answer subs_answer =
      let new : User = record (new_user f.user_id "" email hash now) { on_boarding = true } in
      let (made, same, panics) = enrolled f now draw send email db hash hashed done in
      let (token, s, logged, verified) =
        login_verified users subs keys c ul sl cl f now _ secret db _ new hashed refl refl new_email
          new_id
          (rw same (enrol-Registered users subs keys c ul sl cl f now new db nz started made))
          users_answer subs_answer in
      (panics, token, s, logged, verified)
