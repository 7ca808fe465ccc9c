-- ===== src/Auth/Verify.antt =====
-- What a verified token stands for.
use mathlib.Core.Path.{subst}
use landmark_api.Common.{
  String, Bool, ◌≡◌, ap, ok, err, some, true, inl, inr, arith, Occurs, Result-cases, Option-cases,
  Bool-cases, ◌==◌, eq_iff,
}
use landmark_api.Calendar.{Time}
use landmark_api.Models.{Uuid, User, Subscription, ApiKey}
use landmark_api.Database.{Table, TableLaws}
use landmark_api.Users
use landmark_api.Users.Access.{get_by_id-ok}
use landmark_api.Subscriptions
use landmark_api.Subscriptions.Active.{get_active-ok}
use landmark_api.Auth.{
  Crypto, Claims, Db, token_user, verify_token, verify_token_admin, user_and_subscription,
}

module _ {US SS KS : Type 0} (users : Table US User) (subs : Table SS Subscription)
    (keys : Table KS ApiKey) (c : Crypto) (ul : TableLaws users) (sl : TableLaws subs) where
  -- The token is valid and names the user `u`, who is stored, and `s` is stored and active for
  -- that user.
  pub record IsSession (secret : String) (now : Time) (token : String) (db : Db US SS KS) (u : User)
      (s : Subscription) : Type 0 where
    pub claims : Claims
    pub id : String
    pub valid : c.parse secret token now ≡ some claims
    pub names : claims.user_id ≡ some id
    pub parses : c.uuid_parse id ≡ some u.id
    pub user_stored : Occurs u (users.rows db.users)
    pub subscribed : Occurs s (subs.rows db.subs)
    pub active : Subscriptions.is_active now u.id s ≡ true

  -- The part after the token has been read.
  record Holds (now : Time) (db : Db US SS KS) (allowed : User → Bool) (uid : Uuid) (u : User)
      (s : Subscription) : Type 0 where
    pub same_id : u.id ≡ uid
    pub allows : allowed u ≡ true
    pub user_stored : Occurs u (users.rows db.users)
    pub subscribed : Occurs s (subs.rows db.subs)
    pub active : Subscriptions.is_active now uid s ≡ true

  user_and_subscription-Holds :
      (allowed : User → Bool) (now : Time) (db : Db US SS KS) (uid : Uuid) (u : User)
      (s : Subscription)
      → user_and_subscription users subs keys c allowed now db uid ≡ ok (u, s)
      → Holds now db allowed uid u s
  user_and_subscription-Holds allowed now db uid u s h =
      elim (Result-cases (Users.get_by_id users uid db.users)) [
        | inr (e, failing) ↦ ground (arith, failing)
        | inl (v, found) ↦ elim (Bool-cases (allowed v)) [
          | inr refused ↦ ground (arith, found, refused)
          | inl allows ↦
              elim (Result-cases (Subscriptions.get_active_by_user_id subs now uid db.subs)) [
                | inr (e, failing) ↦ ground (arith, found, allows, failing)
                | inl (t, found_sub) ↦
                    let (user_stored, has) = get_by_id-ok users ul uid db.users v found in
                    let (subscribed, active) = get_active-ok subs sl now uid db.subs t found_sub in
                    let holds : Holds now db allowed uid v t = record {
                      same_id = ground arith;
                      allows = allows;
                      user_stored = user_stored;
                      subscribed = subscribed;
                      active = active;
                    } in
                    subst (λ x. Holds now db allowed uid x s)
                      (ground (arith, found, allows, found_sub))
                      (subst (λ y. Holds now db allowed uid v y)
                        (ground (arith, found, allows, found_sub)) holds)
              ]
        ]
      ]

  -- A token whose user could be read.
  record Names (secret : String) (now : Time) (token : String) (uid : Uuid) : Type 0 where
    pub claims : Claims
    pub id : String
    pub valid : c.parse secret token now ≡ some claims
    pub names : claims.user_id ≡ some id
    pub parses : c.uuid_parse id ≡ some uid

  token_user-Names :
      (secret : String) (now : Time) (token : String) (uid : Uuid)
      → token_user users subs keys c secret now token ≡ some (ok uid)
      → Names secret now token uid
  unfolding token_user
  token_user-Names secret now token uid h = elim (Option-cases (c.parse secret token now)) [
    | inl gone ↦ ground (arith, gone)
    | inr (claims, valid) ↦ elim (Option-cases claims.user_id) [
      | inl gone ↦ ground (arith, valid, gone)
      | inr (id, names) ↦ elim (Option-cases (c.uuid_parse id)) [
        | inl gone ↦ ground (arith, valid, names, gone)
        | inr (v, parses) ↦ record {
          claims = claims;
          id = id;
          valid = valid;
          names = names;
          parses = ground (arith, valid, names, parses);
        }
      ]
    ]
  ]

  session :
      (secret : String) (now : Time) (token : String) (db : Db US SS KS) (u : User)
      (s : Subscription) (allowed : User → Bool) (uid : Uuid)
      → Names secret now token uid
      → Holds now db allowed uid u s
      → IsSession secret now token db u s
  session secret now token db u s allowed uid n h = record {
    claims = n.claims;
    id = n.id;
    valid = n.valid;
    names = n.names;
    parses = rw h.same_id n.parses;
    user_stored = h.user_stored;
    subscribed = h.subscribed;
    active = rw h.same_id h.active;
  }

  module _ (secret : String) (now : Time) (token : String) (db : Db US SS KS) (u : User)
      (s : Subscription) where
    -- A token that VerifyToken accepts is valid, names the returned user, who is stored, and the
    -- returned subscription is stored and active for that user.
    pub verify_token-IsSession :
        verify_token users subs keys c secret now token db ≡ some (ok (u, s))
        → IsSession secret now token db u s
    unfolding verify_token
    verify_token-IsSession h = elim (Option-cases (token_user users subs keys c secret now token)) [
      | inl panic ↦ ground (arith, panic)
      | inr (err e, failing) ↦ ground (arith, failing)
      | inr (ok uid, named) ↦
          session secret now token db u s (λ v. true) uid
            (token_user-Names secret now token uid named)
            (user_and_subscription-Holds (λ v. true) now db uid u s (ground (arith, named)))
    ]

    -- A token that VerifyTokenAdmin accepts is such a token of a user whose role is "admin", and
    -- VerifyToken accepts it with the same user and subscription.
    pub verify_token_admin-IsAdmin :
        verify_token_admin users subs keys c secret now token db ≡ some (ok (u, s))
        → IsSession secret now token db u s
          × (u.role ≡ "admin")
          × (verify_token users subs keys c secret now token db ≡ some (ok (u, s)))
    unfolding verify_token_admin verify_token
    verify_token_admin-IsAdmin h =
        elim (Option-cases (token_user users subs keys c secret now token)) [
          | inl panic ↦ ground (arith, panic)
          | inr (err e, failing) ↦ ground (arith, failing)
          | inr (ok uid, named) ↦
              let passed : user_and_subscription users subs keys c (λ v. v.role == "admin") now db
                    uid
                  ≡ ok (u, s) =
                ground (arith, named) in
              let holds =
                user_and_subscription-Holds (λ v. v.role == "admin") now db uid u s passed in
              (
                session secret now token db u s (λ v. v.role == "admin") uid
                    (token_user-Names secret now token uid named) holds,
                (eq_iff u.role "admin").0 holds.allows,
                rw (named, verify_token) (ap some (weaker uid passed)),
              )
        ]
      where
        weaker :
            (uid : Uuid)
            → user_and_subscription users subs keys c (λ v. v.role == "admin") now db uid
              ≡ ok (u, s)
            → user_and_subscription users subs keys c (λ v. true) now db uid ≡ ok (u, s)
        weaker uid p = elim (Result-cases (Users.get_by_id users uid db.users)) [
          | inr (e, failing) ↦ ground (arith, failing)
          | inl (v, found) ↦ elim (Bool-cases (v.role == "admin")) [
            | inr refused ↦ ground (arith, found, refused)
            | inl allows ↦ rw found (rw (found, allows) at p)
          ]
        ]
