-- ===== src/ApiKeys/Lookup.antt =====
-- The holder of an API key.
use landmark_api.Common.{
  ◌∷◌, String, ◌≡◌, ok, true, inl, inr, arith, Occurs, Result-cases, ◌==◌, eq_iff,
}
use mathlib.Core.Path.{subst}
use landmark_api.Calendar.{Time}
use landmark_api.Errors.{not_found}
use landmark_api.Models.{Uuid, ApiKey, User, Subscription}
use landmark_api.Database.{Table, TableLaws, with_where}
use landmark_api.Repository.{read-ok}
use landmark_api.Users
use landmark_api.Users.Access.{get_by_id-ok}
use landmark_api.Subscriptions
use landmark_api.Subscriptions.Active.{get_active-ok}
use landmark_api.ApiKeys.{
  failed, get_by_key, get_user_and_subscription_by_api_key, assign_api_key_to_user,
}

module _ {S US SS : Type 0} (t : Table S ApiKey) (users : Table US User)
    (subs : Table SS Subscription) (l : TableLaws t) (ul : TableLaws users)
    (sl : TableLaws subs) where
  -- The user and the subscription that a key stands for at the time `now`.
  pub record IsHolder (now : Time) (key : String) (s : S) (us : US) (ss : SS) (u : User)
      (sub : Subscription) : Type 0 where
    pub held : ApiKey
    pub stored : Occurs held (t.rows s)
    pub same_key : held.key ≡ key
    pub user_stored : Occurs u (users.rows us)
    pub same_user : u.id ≡ held.user_id
    pub subscribed : Occurs sub (subs.rows ss)
    pub active : Subscriptions.is_active now u.id sub ≡ true

  get_by_key-ok :
      (key : String) (s : S) (k : ApiKey)
      → get_by_key t key s ≡ ok k
      → Occurs k (t.rows s) × (k.key ≡ key)
  unfolding get_by_key
  get_by_key-ok key s k h =
      let (m, e) =
        read-ok t l not_found (failed "failed to get API key by key") s
          (with_where (λ (x : ApiKey). x.key == key)) k h in
      (m, (eq_iff k.key key).0 e)

  -- A lookup by API key that succeeds returns the stored user to whom the stored key belongs, with
  -- a stored subscription of that user which is active now.
  pub get_user_and_subscription-IsHolder :
      (now : Time) (key : String) (s : S) (us : US) (ss : SS) (u : User) (sub : Subscription)
      → get_user_and_subscription_by_api_key t users subs now key s us ss ≡ ok (u, sub)
      → IsHolder now key s us ss u sub
  unfolding get_user_and_subscription_by_api_key
  get_user_and_subscription-IsHolder now key s us ss u sub h =
      elim (Result-cases (get_by_key t key s)) [
        | inr (e, failing) ↦ ground (arith, failing)
        | inl (k, found) ↦ elim (Result-cases (Users.get_by_id users k.user_id us)) [
          | inr (e, failing) ↦ ground (arith, found, failing)
          | inl (u', found_user) ↦
              elim (Result-cases (Subscriptions.get_active_by_user_id subs now u'.id ss)) [
                | inr (e, failing) ↦ ground (arith, found, found_user, failing)
                | inl (sub', found_sub) ↦
                    let same_u : u' ≡ u = ground (arith, found, found_user, found_sub) in
                    let same_sub : sub' ≡ sub = ground (arith, found, found_user, found_sub) in
                    let (stored, same_key) = get_by_key-ok key s k found in
                    let (user_stored, has) = get_by_id-ok users ul k.user_id us u' found_user in
                    let (subscribed, active) = get_active-ok subs sl now u'.id ss sub' found_sub in
                    let holder : IsHolder now key s us ss u' sub' = record {
                      held = k;
                      stored = stored;
                      same_key = same_key;
                      user_stored = user_stored;
                      same_user = ground arith;
                      subscribed = subscribed;
                      active = active;
                    } in
                    subst (λ x. IsHolder now key s us ss x sub) same_u
                      (subst (λ y. IsHolder now key s us ss u' y) same_sub holder)
              ]
        ]
      ]

module _ {S : Type 0} (t : Table S ApiKey) (l : TableLaws t) where
  -- A key that is assigned is stored.
  pub assign-rows :
      (fresh : Uuid) (key : String) (now : Time) (uid : Uuid) (s : S) (k : ApiKey)
      → (assign_api_key_to_user t fresh key now uid s).0 ≡ ok k
      → t.rows (assign_api_key_to_user t fresh key now uid s).1
        ≡ (record { id = fresh; user_id = uid; key = key; created_at = now; updated_at = now })
          ∷ t.rows s
  unfolding assign_api_key_to_user
  assign-rows fresh key now uid s k h =
      let new : ApiKey = record {
        id = fresh;
        user_id = uid;
        key = key;
        created_at = now;
        updated_at = now;
      } in
      elim (Result-cases (t.create s new)) [
        | inl (s', e) ↦ ground (arith, e, l.create_rows s new s' e)
        | inr (m, e) ↦ ground (arith, e)
      ]
