-- ===== src/Landmarks/Deletion.antt =====
-- AdminDeleteHandler of internal/api/handlers/landmark_handler.go. Images and details have tables
-- of their own here.
pub mod Effects
use landmark_api.Common.{
  ℕ, String, Bool, Option, none, some, List, [], ◌∷◌, Result, ok, err, ◌>>=◌, map_err, eqb,
}
use landmark_api.Models.{Uuid}
use landmark_api.Models.Landmark.{Landmark, LandmarkImage}
use landmark_api.Database.{Table}
use landmark_api.Landmarks.Details.{DetailRow}
use landmark_api.Landmarks.Handlers.{Cache, get_cache_key}

pub record Deletable (LS IS DS C : Type 0) : Type 0 where
  pub landmarks : LS
  pub images : IS
  pub details : DS
  pub cached : C

abbrev pub of_image : Uuid → LandmarkImage → Bool
of_image id i = eqb i.landmark_id id

abbrev pub of_detail : Uuid → DetailRow → Bool
of_detail id d = eqb d.landmark_id id

abbrev pub of_landmark : Uuid → Landmark → Bool
of_landmark id l = eqb l.id id

module _ {LS IS DS C : Type 0} (landmarks : Table LS Landmark) (images : Table IS LandmarkImage)
    (details : Table DS DetailRow) (cache : Cache C) (uuid_string : Uuid → String) where
  -- Between Begin and Commit.
  unfoldable pub delete_in_tx :
      Uuid → Deletable LS IS DS C → Result (ℕ × String) (Deletable LS IS DS C)
  delete_in_tx id s = do
    is ←
        map_err (λ m. (500, "Failed to delete associated images"))
          (images.delete s.images (of_image id))
    ds ←
        map_err (λ m. (500, "Failed to delete landmark details"))
          (details.delete s.details (of_detail id))
    ls ←
        map_err (λ m. (500, "Failed to delete landmark"))
          (landmarks.delete s.landmarks (of_landmark id))
    ok (record s { landmarks = ls.0; images = is.0; details = ds.0 })

  -- `id` is what uuid.Parse gives, `begin` and `commit` are the errors of the transaction.
  unfoldable pub admin_delete_handler :
      Option String
      → Option String
      → Option Uuid
      → Deletable LS IS DS C
      → Option (ℕ × String) × Deletable LS IS DS C
  unfolding delete_in_tx
  admin_delete_handler begin commit id s = elim id [
    | none ↦ (some (400, "Invalid landmark ID"), s)
    | some id ↦ elim begin [
      | some m ↦ (some (500, "Failed to start database transaction"), s)
      | none ↦ elim (delete_in_tx id s) [
        | err refusal ↦ (some refusal, s)
        | ok s' ↦ elim commit [
          | some m ↦ (some (500, "Failed to commit transaction"), s)
          | none ↦ (
            none,
            record s' {
              cached = cache.delete s'.cached (get_cache_key ("id" ∷ uuid_string id ∷ []));
            },
          )
        ]
      ]
    ]
  ]
