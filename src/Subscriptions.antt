-- ===== src/Subscriptions.antt =====
-- internal/repository/subscription_repository.go, over a table of subscriptions. Every method takes
-- the time that time.Now gives during it. A method that writes returns its error, nil as `none`,
-- beside the state that it leaves.
pub mod Active
pub mod Rows
use landmark_api.Common.{
  ℕ, String, Bool, true, false, Option, none, some, List, ◌&&◌, ◌||◌, ◌==◌, eqb, if◌then◌else◌,
  Result, ok, err, map_err,
}
use landmark_api.Calendar.{Time, before, is_zero}
use landmark_api.Errors.{
  Error, driver, subscription_not_found, subscription_exists, is_subscription_not_found,
}
use landmark_api.Models.{Uuid, Subscription, before_create_subscription, before_update_subscription}
use landmark_api.Database.{Table, with_where, with_order}

-- `user_id = ? AND status = 'active' AND (end_date IS NULL OR end_date > ?)`. The column has the
-- tag default:null, so that a zero EndDate is stored as NULL.
unfoldable pub is_active : Time → Uuid → Subscription → Bool
is_active now uid s =
    eqb s.user_id uid && (s.status == "active" && (is_zero s.end_date || before now s.end_date))

abbrev pub has_id : Uuid → Subscription → Bool
has_id id s = eqb s.id id

-- The rows of `id = ? AND status = 'active'`.
abbrev pub is_active_id : Uuid → Subscription → Bool
is_active_id id s = eqb s.id id && s.status == "active"

-- A read that finds no row is ErrSubscriptionNotFound.
abbrev found : Result String (Option Subscription) → Result Error Subscription
found (ok none) = err subscription_not_found
found (ok (some s)) = ok s
found (err m) = err (driver m)

-- `if err != nil { return err }; if r.db.RowsAffected == 0 { return ErrSubscriptionNotFound }`
abbrev written : {S : Type 0} → Table S Subscription → S → Result String (S × ℕ) → Option Error × S
written t s (err m) = (some (driver m), s)
written t s (ok (s', n)) =
    (if eqb (t.handle_rows s') 0 then some subscription_not_found else none, s')

abbrev pub cancelled : Time → Subscription → Subscription
cancelled now x = record x { status = "cancelled"; end_date = now; updated_at = now }

abbrev updated : Time → Subscription → Subscription → Subscription
updated now new x =
    before_update_subscription now
      (record x { plan_type = new.plan_type; end_date = new.end_date; status = new.status })

module _ {S : Type 0} (t : Table S Subscription) where
  unfoldable pub get_by_id : Uuid → S → Result Error Subscription
  get_by_id id s = found (t.first s (with_where (has_id id)))

  unfoldable pub get_active_by_user_id : Time → Uuid → S → Result Error Subscription
  get_active_by_user_id now uid s =
      found (t.first s (with_order (is_active now uid) "created_at DESC"))

  -- tx.Create, after the hook.
  insert : Uuid → Time → Subscription → S → Option Error × S
  insert fresh now new s = elim (t.create s (before_create_subscription fresh now new)) [
    | ok s' ↦ (none, s')
    | err m ↦ (some (driver m), s)
  ]

  unfoldable pub create : Uuid → Time → Subscription → S → Option Error × S
  unfolding insert
  create fresh now new s = elim (get_active_by_user_id now new.user_id s) [
    | ok existing ↦ (some subscription_exists, s)
    | err e ↦ if is_subscription_not_found e then insert fresh now new s else (some e, s)
  ]

  unfoldable pub update : Time → Subscription → S → Option Error × S
  update now new s = written t s (t.updates s (has_id new.id) (updated now new))

  unfoldable pub cancel_subscription : Time → Uuid → S → Option Error × S
  cancel_subscription now id s = written t s (t.updates s (is_active_id id) (cancelled now))

  unfoldable pub get_subscription_history : Uuid → S → Result Error (List Subscription)
  get_subscription_history uid s =
      map_err driver (t.find s (with_order (λ x. eqb x.user_id uid) "created_at DESC"))
