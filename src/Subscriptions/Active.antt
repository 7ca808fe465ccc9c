-- ===== src/Subscriptions/Active.antt =====
-- How many active subscriptions a user has.
use landmark_api.Common.{
  none, ok, Occurs, ◌≤◌, ◌≡◌, refl, Bool, true, false, List, [], ◌∷◌, inl, inr, arith, ok, err,
  if◌then◌else◌, count, Result-cases, count-map-le,
}
use mathlib.Core.Path.{subst}
use native.Mathlib.Decide.{ℕ_discrete}
use landmark_api.Calendar.{Time, stamp}
use landmark_api.Errors.{Error, subscription_not_found}
use landmark_api.Models.{Uuid, Subscription, before_create_subscription}
use landmark_api.Database.{Table, TableLaws, with_order}
use landmark_api.Subscriptions.{
  is_active, create, insert, cancel_subscription, get_active_by_user_id, is_active_id, cancelled,
}

-- Of every user, one row at most is an active subscription at the time `now`.
abbrev pub AtMostOne : Time → List Subscription → Type 0
AtMostOne now rows = (uid : Uuid) → count (is_active now uid) rows ≤ 1

-- What is active later was active before.
count-later :
    (now later : Time) (uid : Uuid) (rows : List Subscription)
    → stamp now ≤ stamp later
    → count (is_active later uid) rows ≤ count (is_active now uid) rows
unfolding is_active
count-later now later uid [] h = omega arith
count-later now later uid (x ∷ rows) h = ground (arith, count-later now later uid rows)

-- Cancelling rows makes none of them active.
cancelled-is_active :
    (now : Time) (uid id : Uuid) (x : Subscription) (b : Bool)
    → is_active_id id x ≡ b
    → is_active now uid (if b then cancelled now x else x) ≡ true
    → is_active now uid x ≡ true
unfolding is_active
cancelled-is_active now uid id x true e h = ground arith
cancelled-is_active now uid id x false e h = h

module _ {S : Type 0} (t : Table S Subscription) (l : TableLaws t) where
  get_active_none :
      (now : Time) (uid : Uuid) (s : S)
      → get_active_by_user_id t now uid s ≡ err subscription_not_found
      → count (is_active now uid) (t.rows s) ≡ 0
  unfolding get_active_by_user_id
  get_active_none now uid s h =
      ground (arith, l.first_none s (with_order (is_active now uid) "created_at DESC"))

  -- A subscription that GetActiveByUserID returns is stored and active.
  pub get_active-ok :
      (now : Time) (uid : Uuid) (s : S) (x : Subscription)
      → get_active_by_user_id t now uid s ≡ ok x
      → Occurs x (t.rows s) × (is_active now uid x ≡ true)
  unfolding get_active_by_user_id
  get_active-ok now uid s x h =
      ground (arith, l.first_some s (with_order (is_active now uid) "created_at DESC") x)

  -- One call of the repository, or time passing.
  pub data Step : Time × S → Time × S → Type 0 where
    created :
        (now : Time) (fresh : Uuid) (new : Subscription) (s : S)
        → Step (now, s) (now, (create t fresh now new s).1)
    cancelled_at :
        (now : Time) (id : Uuid) (s : S) → Step (now, s) (now, (cancel_subscription t now id s).1)
    waited : (now later : Time) (s : S) → stamp now ≤ stamp later → Step (now, s) (later, s)

  pub data Reach (from : Time × S) : Time × S → Type 0 where
    here : Reach from from
    next : {b c : Time × S} → Reach from b → Step b c → Reach from c

  -- The row that is inserted where the user has no active subscription.
  inserted-AtMostOne :
      (now : Time) (fresh : Uuid) (new : Subscription) (rows : List Subscription)
      → AtMostOne now rows
      → count (is_active now new.user_id) rows ≡ 0
      → AtMostOne now (before_create_subscription fresh now new ∷ rows)
  unfolding is_active before_create_subscription
  inserted-AtMostOne now fresh new rows h none_active uid = elim (ℕ_discrete new.user_id uid) [
    | yes e ↦
        let z : count (is_active now uid) rows ≡ 0 =
          subst (λ u. count (is_active now u) rows ≡ 0) e none_active in
        ground arith
    | no ne ↦ ground (arith, h uid)
  ]

  insert-AtMostOne :
      (now : Time) (fresh : Uuid) (new : Subscription) (s : S)
      → AtMostOne now (t.rows s)
      → count (is_active now new.user_id) (t.rows s) ≡ 0
      → AtMostOne now (t.rows (insert t fresh now new s).1)
  unfolding insert
  insert-AtMostOne now fresh new s h none_active uid =
      elim (Result-cases (t.create s (before_create_subscription fresh now new))) [
        | inl (s', e) ↦
            rw (e, insert)
              (rw (l.create_rows s _ s' e)
                (inserted-AtMostOne now fresh new (t.rows s) h none_active uid))
        | inr (m, e) ↦ rw (e, insert) (h uid)
      ]

  insert-rows :
      (fresh : Uuid) (now : Time) (new : Subscription) (s : S)
      → (insert t fresh now new s).0 ≡ none
      → t.rows (insert t fresh now new s).1 ≡ before_create_subscription fresh now new ∷ t.rows s
  unfolding insert
  insert-rows fresh now new s h =
      elim (Result-cases (t.create s (before_create_subscription fresh now new))) [
        | inl (s', e) ↦ rw (e, insert) (l.create_rows s _ s' e)
        | inr (m, e) ↦ ground (arith, e)
      ]

  create_failed-rows :
      (fresh : Uuid) (now : Time) (new : Subscription) (s : S) (e : Error)
      → get_active_by_user_id t now new.user_id s ≡ err e
      → (create t fresh now new s).0 ≡ none
      → t.rows (create t fresh now new s).1 ≡ before_create_subscription fresh now new ∷ t.rows s
  unfolding create
  create_failed-rows fresh now new s subscription_not_found failed h =
      rw (failed, create) (insert-rows fresh now new s (rw (failed, create) at h))
  create_failed-rows fresh now new s _ failed h = ground (arith, failed)

  -- A subscription that Create stores without an error.
  pub create-rows :
      (fresh : Uuid) (now : Time) (new : Subscription) (s : S)
      → (create t fresh now new s).0 ≡ none
      → t.rows (create t fresh now new s).1 ≡ before_create_subscription fresh now new ∷ t.rows s
  unfolding create
  create-rows fresh now new s h = elim (Result-cases (get_active_by_user_id t now new.user_id s)) [
    | inl (x, e) ↦ ground (arith, e)
    | inr (e, failed) ↦ create_failed-rows fresh now new s e failed h
  ]

  create_failed :
      (now : Time) (fresh : Uuid) (new : Subscription) (s : S)
      → AtMostOne now (t.rows s)
      → (e : Error) → get_active_by_user_id t now new.user_id s ≡ err e
      → AtMostOne now (t.rows (create t fresh now new s).1)
  unfolding create
  create_failed now fresh new s h subscription_not_found e =
      rw (e, create) (insert-AtMostOne now fresh new s h (get_active_none now new.user_id s e))
  create_failed now fresh new s h _ e = rw (e, create) h

  create-AtMostOne :
      (now : Time) (fresh : Uuid) (new : Subscription) (s : S)
      → AtMostOne now (t.rows s)
      → AtMostOne now (t.rows (create t fresh now new s).1)
  unfolding create
  create-AtMostOne now fresh new s h uid =
      elim (Result-cases (get_active_by_user_id t now new.user_id s)) [
        | inl (x, e) ↦ rw (e, create) (h uid)
        | inr (e, failed) ↦ create_failed now fresh new s h e failed uid
      ]

  cancel-AtMostOne :
      (now : Time) (id : Uuid) (s : S)
      → AtMostOne now (t.rows s)
      → AtMostOne now (t.rows (cancel_subscription t now id s).1)
  unfolding cancel_subscription
  cancel-AtMostOne now id s h uid =
      elim (Result-cases (t.updates s (is_active_id id) (cancelled now))) [
        | inl ((s', n), e) ↦ rw e (
            rw (l.updates_rows s (is_active_id id) (cancelled now) s' n e).0 (
              omega (
                arith,
                h uid,
                count-map-le (is_active now uid) (is_active now uid)
                    (λ r. if is_active_id id r then cancelled now r else r)
                    (λ x. cancelled-is_active now uid id x _ refl) (t.rows s),
              )))
        | inr (m, e) ↦ rw e (h uid)
      ]

  Step-AtMostOne :
      {b c : Time × S} → Step b c → AtMostOne b.0 (t.rows b.1) → AtMostOne c.0 (t.rows c.1)
  Step-AtMostOne (created now fresh new s) h = create-AtMostOne now fresh new s h
  Step-AtMostOne (cancelled_at now id s) h = cancel-AtMostOne now id s h
  Step-AtMostOne (waited now later s le) h =
      λ uid. omega (arith, h uid, count-later now later uid (t.rows s) le)

  -- Whatever subscriptions are created and cancelled while time passes, each user has one active
  -- subscription at most, if this holds at first.
  pub Reach-AtMostOne :
      {b c : Time × S} → AtMostOne b.0 (t.rows b.1) → Reach b c → AtMostOne c.0 (t.rows c.1)
  Reach-AtMostOne h here = h
  Reach-AtMostOne h (next r st) = Step-AtMostOne st (Reach-AtMostOne h r)
