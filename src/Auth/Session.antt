-- ===== src/Auth/Session.antt =====
-- Registering, then logging in and using the token.
use landmark_api.Common.{
  String, ◌≡◌, ◌≢◌, ◌∙◌, sym, refl, ok, some, none, Option, true, false, inl, inr, arith, Occurs,
  Result-cases, Option-cases, ◌==◌, eq_iff, count, List, ◌∷◌,
}
use landmark_api.Calendar.{Time, is_zero}
use landmark_api.Models.{
  Uuid, User, Subscription, ApiKey, before_create_user, before_create_subscription,
}
use landmark_api.Database.{Table, TableLaws, Query, with_where, with_order}
use landmark_api.Repository.{first-only, first-some}
use landmark_api.Users
use landmark_api.Users.Access.{create-rows}
use landmark_api.Subscriptions.Active
use landmark_api.Subscriptions
use landmark_api.ApiKeys
use landmark_api.Auth.{
  Crypto, Claims, Db, Fresh, register, login, verify_token, token_user, claims_of, new_user,
  free_subscription, enrol,
}

-- What the packages promise: a password fits its own hash, a token that was signed is read back
-- within its day, and an id is read back from its text.
pub record CryptoLaws (c : Crypto) : Type 0 where
  pub compare_hash :
      (p h : String) → c.generate_from_password p ≡ ok h → c.compare_hash_and_password h p ≡ true
  pub parse_sign :
      (secret token : String) (claims : Claims) (now : Time)
      → c.sign secret claims now ≡ ok token
      → c.parse secret token now ≡ some claims
  pub sign_works :
      (secret : String) (claims : Claims) (now : Time)
      → (t : String) × (c.sign secret claims now ≡ ok t)
  pub parse_uuid : (id : Uuid) → c.uuid_parse (c.uuid_string id) ≡ some id

-- Reads of a table that answers.
unfoldable pub Answers : {S Row : Type 0} → Table S Row → S → Type 0
Answers {S} {Row} t s = (q : Query Row) → (o : Option Row) × (t.first s q ≡ ok o)

-- The row that registration stores.
abbrev pub stored_user : Uuid → Time → User → User
stored_user fresh now u = Users.with_default_role (before_create_user fresh now u)

module _ {US SS KS : Type 0} (users : Table US User) (subs : Table SS Subscription)
    (keys : Table KS ApiKey) (c : Crypto) (ul : TableLaws users) (sl : TableLaws subs)
    (cl : CryptoLaws c) where
  -- What is stored after a registration without an error.
  pub record Registered (f : Fresh) (now : Time) (u : User) (db db' : Db US SS KS) : Type 0 where
    pub users_after :
        users.rows db'.users
        ≡ Users.with_default_role (before_create_user f.user_id now u) ∷ users.rows db.users
    pub subs_after : Occurs (free_subscription f.subscription_id u.id now) (subs.rows db'.subs)

  kept :
      (f : Fresh) (now : Time) (u : User)
      → f.subscription_id ≢ 0
      → is_zero now ≡ false
      → before_create_subscription f.subscription_id now
          (free_subscription f.subscription_id u.id now)
        ≡ free_subscription f.subscription_id u.id now
  unfolding before_create_subscription
  kept f now u nz started = ground arith

  pub enrol-Registered :
      (f : Fresh) (now : Time) (u : User) (db : Db US SS KS)
      → f.subscription_id ≢ 0
      → is_zero now ≡ false
      → (enrol users subs keys c f now u db).1 ≡ none
      → Registered f now u db (enrol users subs keys c f now u db).2
  unfolding enrol
  enrol-Registered f now u db nz started h =
      elim (Option-cases (Users.create users f.user_id now u db.users).0) [
        | inr (e, failing) ↦ absurd (ground (arith, failing))
        | inl made ↦
            elim (Result-cases
              (ApiKeys.assign_api_key_to_user keys f.key_id f.key now u.id db.keys).0) [
                | inr (e, failing) ↦ absurd (ground (arith, made, failing))
                | inl (k, assigned) ↦
                    let free = free_subscription f.subscription_id u.id now in
                    let opened : (Subscriptions.create subs f.subscription_id now free db.subs).0
                        ≡ none =
                      ground (arith, made, assigned) in
                    rw (made, assigned, enrol)
                      (record {
                        users_after = create-rows users ul f.user_id now u db.users made;
                        subs_after =
                            rw
                              (Active.create-rows subs sl f.subscription_id now free db.subs opened)
                              (inl (kept f now u nz started));
                      })
              ]
      ]

  email-found :
      (email : String) (s : US) (u : User) (old : List User)
      → users.rows s ≡ u ∷ old
      → count (λ v. v.email == email) old ≡ 0
      → u.email ≡ email
      → Answers users s
      → Users.get_by_email users email s ≡ ok u
  unfolding Users.get_by_email Answers
  email-found email s u old rows others same answers =
      let q = with_where (λ (v : User). v.email == email) in
      let (o, e) = answers q in
      ground
        (arith, e, first-only users ul s q u old o rows others ((eq_iff u.email email).1 same) e)

  id-found :
      (id : Uuid) (s : US) (u : User) (old : List User)
      → users.rows s ≡ u ∷ old
      → count (Users.has_id id) old ≡ 0
      → u.id ≡ id
      → Answers users s
      → Users.get_by_id users id s ≡ ok u
  unfolding Users.get_by_id Answers
  id-found id s u old rows others same answers =
      let q = with_where (Users.has_id id) in
      let (o, e) = answers q in
      ground (arith, e, first-only users ul s q u old o rows others (ground arith) e)

  active-found :
      (now : Time) (uid : Uuid) (s : SS) (x : Subscription)
      → Occurs x (subs.rows s)
      → Subscriptions.is_active now uid x ≡ true
      → Answers subs s
      → (y : Subscription) × (Subscriptions.get_active_by_user_id subs now uid s ≡ ok y)
  unfolding Subscriptions.get_active_by_user_id Answers
  active-found now uid s x m active answers =
      let q = with_order (Subscriptions.is_active now uid) "created_at DESC" in
      let (o, e) = answers q in
      let (y, found) = first-some subs sl s q x o m active e in (y, ground (arith, e, found))

  stored_fields :
      (fresh : Uuid) (now : Time) (new : User)
      → new.id ≡ fresh
      → (new.role == "") ≡ true
      → let u = stored_user fresh now new in
        (u.id ≡ fresh)
        × (u.email ≡ new.email)
        × (u.password_hash ≡ new.password_hash)
        × (u.role ≡ "user")
  unfolding before_create_user
  stored_fields fresh now new id role = (ground arith, ground arith, ground arith, ground arith)

  free-is_active :
      (sid uid id : Uuid) (now : Time)
      → uid ≡ id
      → Subscriptions.is_active now uid (free_subscription sid id now) ≡ true
  unfolding Subscriptions.is_active is_zero
  free-is_active sid uid id now same = ground arith

  -- Login and verification of a user who is found by email and by id and has a subscription.
  login-verify_token :
      (secret : String) (now : Time) (email password : String) (db : Db US SS KS) (u : User)
      (s : Subscription)
      → Users.get_by_email users email db.users ≡ ok u
      → c.compare_hash_and_password u.password_hash password ≡ true
      → Users.get_by_id users u.id db.users ≡ ok u
      → Subscriptions.get_active_by_user_id subs now u.id db.subs ≡ ok s
      → (token : String) × (login users subs keys c secret now email password db
          ≡ ok (token, u.role == "admin"))
        × (verify_token users subs keys c secret now token db ≡ some (ok (u, s)))
  unfolding login verify_token token_user
  login-verify_token secret now email password db u s by_email fits by_id active =
      let (token, signed) = cl.sign_works secret (claims_of users subs keys c u s) now in
      (
        token,
        rw (by_email, login) (rw fits (rw active (rw signed refl))),
        rw (cl.parse_sign secret token _ now signed, verify_token, token_user)
            (rw (cl.parse_uuid u.id) (rw by_id (rw active refl))),
      )

  -- Whoever is enrolled with the hash of a password can log in with it.
  pub login_verified :
      (f : Fresh) (now : Time) (password secret : String) (db db' : Db US SS KS) (new : User)
      → c.generate_from_password password ≡ ok new.password_hash
      → new.id ≡ f.user_id
      → (new.role == "") ≡ true
      → count (λ v. v.email == new.email) (users.rows db.users) ≡ 0
      → count (Users.has_id f.user_id) (users.rows db.users) ≡ 0
      → Registered f now new db db'
      → Answers users db'.users
      → Answers subs db'.subs
      → (token : String) × (s : Subscription) × (login users subs keys c secret now new.email
            password db'
          ≡ ok (token, false))
        × (verify_token users subs keys c secret now token db'
            ≡ some (ok (stored_user f.user_id now new, s)))
  login_verified f now password secret db db' new hashed own no_role new_email new_id r users_answer
        subs_answer =
      let u = stored_user f.user_id now new in
      let (id, same_email, same_hash, role) = stored_fields f.user_id now new own no_role in
      let (s, active) =
        active-found now u.id db'.subs _ r.subs_after
          (free-is_active f.subscription_id u.id new.id now (id ∙ sym own)) subs_answer in
      let (token, logged, verified) =
        login-verify_token secret now new.email password db' u s
          (email-found new.email db'.users u _ r.users_after new_email same_email users_answer)
          (rw same_hash (cl.compare_hash password new.password_hash hashed))
          (id-found u.id db'.users u _ r.users_after (rw id new_id) refl users_answer) active in
      (token, s, rw role at logged, verified)

  -- Whoever registers without an error, under an email and an id that no user has, can log in with
  -- the password at once, not as an admin, and VerifyToken accepts the token that login gives and
  -- returns the user that was stored. The tables answer when they are read, and the laws of bcrypt,
  -- jwt and uuid hold.
  pub register-login-verify_token :
      (f : Fresh) (now : Time) (email password name secret : String) (db : Db US SS KS)
      (hash : String)
      → let db' = (register users subs keys c f now email password name db).2 in
        let u = stored_user f.user_id now (new_user f.user_id name email hash now) in
        c.generate_from_password password ≡ ok hash
        → f.subscription_id ≢ 0
        → is_zero now ≡ false
        → count (λ v. v.email == email) (users.rows db.users) ≡ 0
        → count (Users.has_id f.user_id) (users.rows db.users) ≡ 0
        → (register users subs keys c f now email password name db).1 ≡ none
        → Answers users db'.users
        → Answers subs db'.subs
        → (token : String) × (s : Subscription) × (login users subs keys c secret now email password
              db'
            ≡ ok (token, false))
          × (verify_token users subs keys c secret now token db' ≡ some (ok (u, s)))
  unfolding register
  register-login-verify_token f now email password name secret db hash hashed nz started new_email
        new_id done users_answer subs_answer =
      let new = new_user f.user_id name email hash now in
      login_verified f now password secret db _ new hashed refl refl new_email new_id
        (rw (hashed, register)
          (enrol-Registered f now new db nz started (rw (hashed, register) at done)))
        users_answer subs_answer
