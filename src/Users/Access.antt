-- ===== src/Users/Access.antt =====
-- Granting and revoking a user's access.
use landmark_api.Common.{none, ◌∷◌, Result-cases, inl, inr, arith, String, ok, ◌≡◌, true, Occurs}
use landmark_api.Common.Text.{◌+++◌}
use landmark_api.Calendar.{Time}
use landmark_api.Errors.{driver, wrapped, not_found}
use landmark_api.Models.{Uuid, User, before_create_user}
use landmark_api.Database.{Table, TableLaws}
use landmark_api.Repository.{Changes, affected-Changes, read-ok}
use landmark_api.Users.{
  create, with_default_role, has_id, granted, revoked, rewritten, failed, no_user, grant_access,
  revoke_access, update, get_by_id,
}

module _ {S : Type 0} (t : Table S User) (l : TableLaws t) where
  -- A user that GetByID returns is stored under that id.
  pub get_by_id-ok :
      (id : Uuid) (s : S) (u : User)
      → get_by_id t id s ≡ ok u
      → Occurs u (t.rows s) × (has_id id u ≡ true)
  unfolding get_by_id
  get_by_id-ok id s u h = read-ok t l not_found (failed "failed to get user by ID") s _ u h

  -- A user that Create stores without an error.
  pub create-rows :
      (fresh : Uuid) (now : Time) (u : User) (s : S)
      → (create t fresh now u s).0 ≡ none
      → t.rows (create t fresh now u s).1
        ≡ with_default_role (before_create_user fresh now u) ∷ t.rows s
  unfolding create
  create-rows fresh now u s h =
      elim (Result-cases (t.create s (with_default_role (before_create_user fresh now u)))) [
        | inl (s', e) ↦ rw e (l.create_rows s _ s' e)
        | inr (m, e) ↦ ground (arith, e)
      ]

  -- GrantAccess sets the access flag and the time of the grant of the rows with the id and of no
  -- other, RevokeAccess clears both and sets the time of the revocation, and Update writes the
  -- given user's name, email, password hash and time of update and ends the onboarding. Each
  -- succeeds exactly where there is such a row, names the missing user where there is none, and
  -- leaves the table alone where the driver fails.
  pub grant_access-Changes :
      (uuid_string : Uuid → String) (now : Time) (id : Uuid) (u : User) (s : S)
      → Changes t
          (has_id id)
          (granted now)
          (no_user t uuid_string id)
          (λ m. wrapped (driver m) ("failed to grant access: " +++ m))
          s
          (grant_access t uuid_string now id s)
        × Changes t
            (has_id id)
            (revoked now)
            (no_user t uuid_string id)
            (λ m. wrapped (driver m) ("failed to revoke access: " +++ m))
            s
            (revoke_access t uuid_string now id s)
        × Changes t
            (has_id u.id)
            (rewritten u)
            not_found
            (failed "failed to update user")
            s
            (update t u s)
  unfolding grant_access revoke_access update
  grant_access-Changes uuid_string now id u s = (
    affected-Changes t l _ _ _ _ s,
    affected-Changes t l _ _ _ _ s,
    affected-Changes t l _ _ _ _ s,
  )
