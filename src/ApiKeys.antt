-- ===== src/ApiKeys.antt =====
-- internal/repository/apikey_repository.go and internal/services/api_service.go, over a table of
-- API keys. A call of uuid.New or uuid.NewString enters as the value that it gives.
pub mod Lookup
use landmark_api.Common.{ℕ, String, Bool, Option, none, some, Result, ok, err, eqb, ◌==◌, ◌>>=◌}
use landmark_api.Calendar.{Time}
use landmark_api.Errors.{Error, driver, not_found, wrap}
use landmark_api.Models.{Uuid, ApiKey, User, Subscription}
use landmark_api.Database.{Table, with_where}
use landmark_api.Repository.{read, inserted, affected}
use landmark_api.Users
use landmark_api.Subscriptions

abbrev pub failed : String → String → Error
failed what m = wrap (driver m) what

abbrev pub of_user : Uuid → ApiKey → Bool
of_user uid k = eqb k.user_id uid

abbrev pub rekeyed : Time → String → ApiKey → ApiKey
rekeyed now key k = record k { key = key; updated_at = now }

module _ {S : Type 0} (t : Table S ApiKey) where
  unfoldable pub create : ApiKey → S → Option Error × S
  create k s = inserted (failed "failed to create API key") s (t.create s k)

  unfoldable pub get_by_key : String → S → Result Error ApiKey
  get_by_key key s =
      read not_found (failed "failed to get API key by key")
        (t.first s (with_where (λ k. k.key == key)))

  unfoldable pub get_by_user_id : Uuid → S → Result Error ApiKey
  get_by_user_id uid s =
      read not_found (failed "failed to get API key by id") (t.first s (with_where (of_user uid)))

  unfoldable pub delete_by_user_id : Uuid → S → Option Error × S
  delete_by_user_id uid s =
      affected not_found (failed "failed to delete API key") s (t.delete s (of_user uid))

  unfoldable pub update_api_key : Time → Uuid → String → S → Option Error × S
  update_api_key now uid key s =
      affected not_found (failed "failed to update API key") s
        (t.updates s (of_user uid) (rekeyed now key))

  -- The service. `fresh` is the key's id and `key` what GenerateAPIKey gives.
  unfoldable pub assign_api_key_to_user : Uuid → String → Time → Uuid → S → Result Error ApiKey × S
  unfolding create
  assign_api_key_to_user fresh key now uid s =
      let k : ApiKey = record {
        id = fresh;
        user_id = uid;
        key = key;
        created_at = now;
        updated_at = now;
      } in
      let (e, s') = create k s in elim e [ none ↦ (ok k, s') | some e ↦ (err e, s') ]

  module _ {US SS : Type 0} (users : Table US User) (subs : Table SS Subscription) where
    unfoldable pub get_user_and_subscription_by_api_key :
        Time → String → S → US → SS → Result Error (User × Subscription)
    get_user_and_subscription_by_api_key now key s us ss = do
      k ← get_by_key key s
      user ← Users.get_by_id users k.user_id us
      sub ← Subscriptions.get_active_by_user_id subs now user.id ss
      ok (user, sub)
