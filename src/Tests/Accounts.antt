-- ===== src/Tests/Accounts.antt =====
-- Accounts, subscriptions and keys at concrete inputs.
use landmark_api.Common.{
  String, ◌≡◌, ◌⊎◌, ◌↔◌, refl, Bool, true, false, Option, none, some, List, ok, arith, find, map,
  if◌then◌else◌,
}
use landmark_api.Calendar.{is_zero}
use landmark_api.Errors.{Error, driver, subscription_not_found}
use landmark_api.Models.{User, Subscription, ApiKey}
use landmark_api.Database.Memory
use landmark_api.Users
use landmark_api.Subscriptions
use landmark_api.Subscriptions.Active.{AtMostOne, Reach, Step, Reach-AtMostOne}
use landmark_api.Subscriptions.Rows.{cancel_subscription_lem}
use landmark_api.ApiKeys
use landmark_api.ApiKeys.Lookup.{IsHolder, get_user_and_subscription-IsHolder}
use landmark_api.Auth.{
  Crypto, Claims, Db, Fresh, register, login, verify_token, verify_token_admin, new_user,
}
use landmark_api.Auth.Verify.{IsSession, verify_token-IsSession, verify_token_admin-IsAdmin}
use landmark_api.Auth.Session.{Answers, stored_user, register-login-verify_token}
use landmark_api.Auth.ByEmail.{
  Sender, generate_random_password, password_mail, send_password_email, register_with_email,
}
use landmark_api.Auth.ByEmail.Login.{register_with_email-login}
use landmark_api.Tests.Packages.{crypto, crypto_laws, write_claims}
use landmark_api.Tests.Fixtures.{
  today, alice, alice_free, users, users_laws, subs, subs_laws, keys, keys_laws, db, empty_db,
  fresh,
}

-- Today Alice's subscription is cancelled, and a year from then on she takes it up again.
abbrev cancelled_today : List Subscription
cancelled_today = (Subscriptions.cancel_subscription subs today 10 db.subs).1

one_at_most : AtMostOne today db.subs
unfolding Subscriptions.is_active
one_at_most uid = ground arith

Reach-AtMostOne_example :
    AtMostOne today (Subscriptions.create subs 11 today alice_free cancelled_today).1
Reach-AtMostOne_example = Reach-AtMostOne subs subs_laws one_at_most (
    Reach.next (Reach.next Reach.here (Step.cancelled_at today 10 db.subs))
      (Step.created today 11 alice_free cancelled_today))

cancel_subscription_lem_example :
    (((Subscriptions.cancel_subscription subs today 10 db.subs).0 ≡ some subscription_not_found)
      × ((Subscriptions.cancel_subscription subs today 10 db.subs).1
          ≡ map
              (λ r. if Subscriptions.is_active_id 10 r then Subscriptions.cancelled today r else r)
              db.subs))
    ⊎ ((m : String) × ((Subscriptions.cancel_subscription subs today 10 db.subs)
          ≡ (some (driver m), db.subs)))
cancel_subscription_lem_example = cancel_subscription_lem subs subs_laws today 10 db.subs

found :
    ApiKeys.get_user_and_subscription_by_api_key keys users subs today "key-of-alice" db.keys
      db.users db.subs
    ≡ ok (alice, alice_free)
unfolding ApiKeys.get_user_and_subscription_by_api_key ApiKeys.get_by_key Users.get_by_id
    Subscriptions.get_active_by_user_id Subscriptions.is_active is_zero
found = refl

get_user_and_subscription-IsHolder_example :
    IsHolder keys users subs keys_laws users_laws subs_laws today "key-of-alice" db.keys db.users
      db.subs alice alice_free
get_user_and_subscription-IsHolder_example =
    get_user_and_subscription-IsHolder keys users subs keys_laws users_laws subs_laws today
      "key-of-alice" db.keys db.users db.subs alice alice_free found

alice_claims : Claims
alice_claims = record {
  user_id = some (crypto.uuid_string 1);
  role = "admin";
  subscription_id = "";
  plan_type = "";
}

abbrev alice_token : String
alice_token = write_claims alice_claims

verified :
    verify_token_admin users subs keys crypto "secret" today alice_token db
    ≡ some (ok (alice, alice_free))
unfolding verify_token_admin crypto write_claims landmark_api.Auth.token_user alice_claims
    Users.get_by_id Subscriptions.get_active_by_user_id Subscriptions.is_active is_zero
verified = refl

verify_token-IsSession_example :
    IsSession users subs keys crypto users_laws subs_laws "secret" today alice_token db alice
      alice_free
verify_token-IsSession_example =
    verify_token-IsSession users subs keys crypto users_laws subs_laws "secret" today alice_token db
      alice alice_free
      (verify_token_admin-IsAdmin users subs keys crypto users_laws subs_laws "secret" today
        alice_token db alice alice_free verified).2

verify_token_admin-IsAdmin_example :
    IsSession users subs keys crypto users_laws subs_laws "secret" today alice_token db alice
      alice_free
    × (alice.role ≡ "admin")
    × (verify_token users subs keys crypto "secret" today alice_token db
        ≡ some (ok (alice, alice_free)))
verify_token_admin-IsAdmin_example =
    verify_token_admin-IsAdmin users subs keys crypto users_laws subs_laws "secret" today
      alice_token db alice alice_free verified

answers : {Row : Type 0} (same : Row → Row → Bool) (s : List Row) → Answers (Memory.table same) s
unfolding Answers
answers same s q = (find q.matches s, refl)

registers :
    (register users subs keys crypto fresh today "bob@example.com" "pass" "Bob" empty_db).1 ≡ none
unfolding register crypto landmark_api.Auth.enrol Users.create ApiKeys.assign_api_key_to_user
    Subscriptions.create Subscriptions.get_active_by_user_id
registers = refl

register-login-verify_token_example :
    let db' =
      (register users subs keys crypto fresh today "bob@example.com" "pass" "Bob" empty_db).2 in
    let u = stored_user 1 today (new_user 1 "Bob" "bob@example.com" "pass" today) in
    (token : String) × (s : Subscription) × (login users subs keys crypto "secret" today
        "bob@example.com" "pass" db'
      ≡ ok (token, false))
    × (verify_token users subs keys crypto "secret" today token db' ≡ some (ok (u, s)))
unfolding is_zero crypto
register-login-verify_token_example =
    register-login-verify_token users subs keys crypto users_laws subs_laws crypto_laws fresh today
      "bob@example.com" "pass" "Bob" "secret" empty_db "pass" refl (omega arith) refl refl refl
      registers (answers _ _) (answers _ _)

-- A mail service that cannot be reached.
abbrev unreachable : Sender
unreachable mail = (none, some "dial tcp: timeout")

abbrev mailed :
    Option (Option User × Option Error) × Db (List User) (List Subscription) (List ApiKey)
mailed =
    register_with_email users subs keys crypto fresh today (λ i. 0) unreachable "bob@example.com"
      empty_db

register_with_email-login_example :
    let new : User = record (new_user 1 "" "bob@example.com" "aaaaaaaaaaaa" today) {
      on_boarding = true;
    } in
    ((mailed.0 ≡ none) ↔ ((unreachable (password_mail "bob@example.com" "aaaaaaaaaaaa")).0 ≡ none))
    × (token : String) × (s : Subscription) × (login users subs keys crypto "secret" today
          "bob@example.com" "aaaaaaaaaaaa" mailed.1
        ≡ ok (token, false))
    × (verify_token users subs keys crypto "secret" today token mailed.1
        ≡ some (ok (stored_user 1 today new, s)))
unfolding is_zero crypto generate_random_password register_with_email send_password_email
    landmark_api.Auth.enrol Users.create ApiKeys.assign_api_key_to_user Subscriptions.create
    Subscriptions.get_active_by_user_id
register_with_email-login_example =
    register_with_email-login users subs keys crypto users_laws subs_laws crypto_laws fresh today
      (λ i. 0) unreachable "bob@example.com" "secret" empty_db "aaaaaaaaaaaa" refl (omega arith)
      refl refl refl refl (answers _ _) (answers _ _)
