-- ===== src/Users.antt =====
-- internal/repository/user_repository.go, over a table of users.
pub mod Access
use landmark_api.Common.{if◌then◌else◌, ℕ, String, Bool, true, false, Option, Result, eqb, ◌==◌}
use landmark_api.Common.Text.{is_empty, ◌+++◌}
use landmark_api.Calendar.{Time, zero_time}
use landmark_api.Errors.{Error, driver, not_found, wrapped, wrap, text}
use landmark_api.Models.{Uuid, User, before_create_user, before_update_user}
use landmark_api.Database.{Table, with_where}
use landmark_api.Repository.{read, inserted, affected}

abbrev pub has_id : Uuid → User → Bool
has_id id u = eqb u.id id

-- errors.Wrap of the driver's error.
abbrev pub failed : String → String → Error
failed what m = wrap (driver m) what

-- Updates with a map writes the columns that it names and the time of the update.
abbrev pub granted : Time → User → User
granted now u = before_update_user now (record u { has_access = true; access_granted_at = now })

abbrev pub revoked : Time → User → User
revoked now u =
    before_update_user now
      (record u { has_access = false; access_granted_at = zero_time; access_revoked_at = now })

abbrev pub rewritten : User → User → User
rewritten new u = record u {
  name = new.name;
  email = new.email;
  password_hash = new.password_hash;
  on_boarding = false;
  updated_at = new.updated_at;
}

-- The column's default:'user' stands in for a role that is not set.
abbrev pub with_default_role : User → User
with_default_role u = if is_empty u.role then record u { role = "user" } else u

module _ {S : Type 0} (t : Table S User) where
  unfoldable pub create : Uuid → Time → User → S → Option Error × S
  create fresh now u s =
      inserted (failed "failed to create user") s
        (t.create s (with_default_role (before_create_user fresh now u)))

  unfoldable pub get_by_id : Uuid → S → Result Error User
  get_by_id id s =
      read not_found (failed "failed to get user by ID") (t.first s (with_where (has_id id)))

  unfoldable pub get_by_stripe_customer_id : String → S → Result Error User
  get_by_stripe_customer_id id s =
      read not_found (failed "failed to get user by customer id")
        (t.first s (with_where (λ u. u.stripe_id == id)))

  unfoldable pub get_by_email : String → S → Result Error User
  get_by_email email s =
      read not_found (failed "failed to get user by email")
        (t.first s (with_where (λ u. u.email == email)))

  unfoldable pub update : User → S → Option Error × S
  update u s =
      affected not_found (failed "failed to update user") s
        (t.updates s (has_id u.id) (rewritten u))

  unfoldable pub delete : Uuid → S → Option Error × S
  delete id s = affected not_found (failed "failed to delete user") s (t.delete s (has_id id))

  -- `uuid_string` is String of uuid.UUID, in the error's text.
  module _ (uuid_string : Uuid → String) where
    abbrev pub no_user : Uuid → Error
    no_user id = text ("no user found with ID: " +++ uuid_string id)

    unfoldable pub grant_access : Time → Uuid → S → Option Error × S
    grant_access now id s =
        affected (no_user id) (λ m. wrapped (driver m) ("failed to grant access: " +++ m)) s
          (t.updates s (has_id id) (granted now))

    unfoldable pub revoke_access : Time → Uuid → S → Option Error × S
    revoke_access now id s =
        affected (no_user id) (λ m. wrapped (driver m) ("failed to revoke access: " +++ m)) s
          (t.updates s (has_id id) (revoked now))
