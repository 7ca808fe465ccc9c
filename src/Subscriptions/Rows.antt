-- ===== src/Subscriptions/Rows.antt =====
-- Update and CancelSubscription: what they write, and the error that they return.
use landmark_api.Common.{
  ◌∙◌, List, [], ◌∷◌, Bool, count, ◌≡◌, ◌≢◌, ◌⊎◌, String, refl, none, some, inl, inr, arith, map,
  if◌then◌else◌, Result-cases,
}
use landmark_api.Calendar.{Time}
use landmark_api.Errors.{driver, subscription_not_found}
use landmark_api.Models.{Uuid, Subscription}
use landmark_api.Database.{Table, TableLaws}
use landmark_api.Subscriptions.{
  update, updated, cancel_subscription, cancelled, has_id, is_active_id,
}

-- Where no row meets the condition an update leaves the rows as they are.
map_untouched :
    (p : Subscription → Bool) (f : Subscription → Subscription) (rows : List Subscription)
    → count p rows ≡ 0
    → map (λ r. if p r then f r else r) rows ≡ rows
map_untouched p f [] h = refl
map_untouched p f (x ∷ rows) h = ground (arith, map_untouched p f rows)

module _ {S : Type 0} (t : Table S Subscription) (l : TableLaws t) where
  -- Update reports an error on every input: the one of the driver, or ErrSubscriptionNotFound, also
  -- where the statement has changed rows.
  pub update-ne-none : (now : Time) (new : Subscription) (s : S) → (update t now new s).0 ≢ none
  unfolding update
  update-ne-none now new s h = elim (Result-cases (t.updates s (has_id new.id) (updated now new))) [
    | inl ((s', n), e) ↦ ground (arith, e, l.handle_rows_zero s')
    | inr (m, e) ↦ ground (arith, e)
  ]

  -- CancelSubscription cancels exactly the active rows of the id and ends them now, and answers
  -- ErrSubscriptionNotFound all the same; or the driver fails, and nothing is written.
  pub cancel_subscription_lem :
      (now : Time) (id : Uuid) (s : S)
      → (((cancel_subscription t now id s).0 ≡ some subscription_not_found)
          × (t.rows (cancel_subscription t now id s).1
              ≡ map (λ r. if is_active_id id r then cancelled now r else r) (t.rows s)))
        ⊎ ((m : String) × ((cancel_subscription t now id s) ≡ (some (driver m), s)))
  unfolding cancel_subscription
  cancel_subscription_lem now id s =
      elim (Result-cases (t.updates s (is_active_id id) (cancelled now))) [
        | inl ((s', n), e) ↦
            inl (rw e (rw (l.handle_rows_zero s') refl), rw e (l.updates_rows s _ _ s' n e).0)
        | inr (m, e) ↦ inr (m, rw e)
      ]

  -- Update leaves the rows as they are where none has the id.
  pub rows-update :
      (now : Time) (new : Subscription) (s : S)
      → count (has_id new.id) (t.rows s) ≡ 0
      → t.rows (update t now new s).1 ≡ t.rows s
  unfolding update
  rows-update now new s h = elim (Result-cases (t.updates s (has_id new.id) (updated now new))) [
    | inr (m, failing) ↦ ground (arith, failing)
    | inl ((s', n), done) ↦ rw done (
        (l.updates_rows s _ _ s' n done).0
        ∙ map_untouched (has_id new.id) (updated now new) (t.rows s) h)
  ]
