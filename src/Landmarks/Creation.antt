-- ===== src/Landmarks/Creation.antt =====
-- CreateLandmark and AdminEditHandler of internal/api/handlers/landmark_handler.go. Images and
-- details have tables of their own here, and a row of `landmarks` stands without its images.
pub mod Stored
use landmark_api.Common.{
  ℕ, suc, String, Bool, true, Option, none, some, List, [], ◌∷◌, Result, ok, err, ◌>>=◌, map_err,
  map, eqb,
}
use landmark_api.Calendar.{Time, zero_time}
use landmark_api.Models.{Uuid, Float64, AuditLog}
use landmark_api.Models.Landmark.{
  Landmark, LandmarkImage, LandmarkDetail, before_create, before_create_detail, before_save,
}
use landmark_api.Database.{Table, with_where}
use landmark_api.Landmarks.Responses.{Info, merge_landmark_and_details}

pub record Store (LS IS DS AS : Type 0) : Type 0 where
  pub landmarks : LS
  pub images : IS
  pub details : DS
  pub audits : AS

-- The request body of CreateLandmark.
pub record LandmarkData : Type 0 where
  pub landmark : Landmark
  pub landmark_detail : LandmarkDetail
  pub image_urls : List String

-- What uuid.New gives to the landmark, its detail, its images in their order, and to the hooks.
pub record NewIds : Type 0 where
  pub landmark : Uuid
  pub detail : Uuid
  pub image : ℕ → Uuid
  pub hook : Uuid

-- The status and the message of an answer that is an error.
abbrev pub Refusal : Type 0
Refusal = ℕ × String

-- Gorm fills the times.
abbrev pub new_image : Time → Uuid → Uuid → String → LandmarkImage
new_image now id landmark url = record {
  id = id;
  landmark_id = landmark;
  image_url = url;
  created_at = now;
  updated_at = now;
}

-- What Create makes of the landmark: the hooks BeforeSave and BeforeCreate.
abbrev pub hooked : NewIds → Time → Landmark → Landmark
hooked new now l =
    before_create new.hook now (before_save new.hook (record l { id = new.landmark }))

abbrev pub hooked_detail : NewIds → Time → LandmarkDetail → LandmarkDetail
hooked_detail new now d =
    before_create_detail new.hook now (record d { id = new.detail; landmark_id = new.landmark })

-- The row of a landmark, whose images are kept in their own table.
abbrev pub row_of : Landmark → Landmark
row_of l = record l { images = [] }

-- Gorm sets the foreign key of associated images.
abbrev pub associated : Landmark → List LandmarkImage
associated l = map (of_new l.id) l.images
  where
    of_new : Uuid → LandmarkImage → LandmarkImage
    of_new id i = record i { landmark_id = id }

-- `save_images` is what Create does with the images of the landmark that it stores: gorm saves the
-- associations of a new row together with it. `of_landmark` gives the images of a landmark, as
-- Preload("Images") does.
module _ {LS IS DS AS : Type 0} (landmarks : Table LS Landmark) (images : Table IS LandmarkImage)
    (details : Table DS LandmarkDetail) (audits : Table AS AuditLog)
    (save_images : IS → List LandmarkImage → Result String IS)
    (of_landmark : IS → Uuid → List LandmarkImage) (uuid_string : Uuid → String)
    (fetch_weather : Float64 → Float64 → Option String) where
  -- tx.Create(&landmark): the row, and its associated images if there are any.
  abbrev pub create_row : Landmark → Store LS IS DS AS → Result String (Store LS IS DS AS)
  create_row l s = do
    ls ← landmarks.create s.landmarks (row_of l)
    is ← elim l.images [ [] ↦ ok s.images | i ∷ rest ↦ save_images s.images (associated l) ]
    ok (record s { landmarks = ls; images = is })

  -- The loop over image_urls; `n` counts them.
  unfoldable pub create_images : NewIds → Time → ℕ → List String → IS → Result Refusal IS
  create_images new now n [] s = ok s
  create_images new now n (url ∷ urls) s = do
    s' ←
        map_err (λ m. (500, "Failed to create landmark image"))
          (images.create s (new_image now (new.image n) new.landmark url))
    create_images new now (suc n) urls s'

  -- Between Begin and Commit.
  unfoldable pub create_in_tx :
      NewIds → Time → LandmarkData → Store LS IS DS AS → Result Refusal (Store LS IS DS AS)
  unfolding create_images
  create_in_tx new now body s = do
    s1 ←
        map_err (λ m. (500, "Failed to create landmark"))
          (create_row (hooked new now body.landmark) s)
    is ← create_images new now 0 body.image_urls s1.images
    ds ←
        map_err (λ m. (500, "Failed to create landmark details"))
          (details.create s1.details (hooked_detail new now body.landmark_detail))
    ok (record s1 { images = is; details = ds })

  abbrev or_same : AS → Result String AS → AS
  or_same s (ok s') = s'
  or_same s (err m) = s

  abbrev audit : Time → Uuid → AuditLog
  audit now id = record {
    admin_id = 0;
    action = "CREATE";
    entity_type = "LANDMARK";
    entity_id = uuid_string id;
    details = "Created landmark";
    timestamp = now;
  }

  -- First of a landmark by its id, with its images.
  abbrev pub fetch : Uuid → Store LS IS DS AS → Result String (Option Landmark)
  fetch id s = elim (landmarks.first s.landmarks (with_where (λ l. eqb l.id id))) [
    | err m ↦ err m
    | ok none ↦ ok none
    | ok (some l) ↦ ok (some (record l { images = of_landmark s.images l.id }))
  ]

  -- `body` is the decoded request, `none` where it is not valid; `begin` and `commit` are the
  -- errors of the transaction. An answer that is no refusal has the status 201.
  unfoldable pub create_landmark :
      Option String
      → Option String
      → NewIds
      → Time
      → Option LandmarkData
      → Store LS IS DS AS
      → Result Refusal Info × Store LS IS DS AS
  unfolding create_in_tx merge_landmark_and_details
  create_landmark begin commit new now body s = elim body [
    | none ↦ (err (400, "Invalid request payload"), s)
    | some body ↦ elim begin [
      | some m ↦ (err (500, "Failed to start database transaction"), s)
      | none ↦ elim (create_in_tx new now body s) [
        | err refusal ↦ (err refusal, s)
        | ok s' ↦ elim commit [
          | some m ↦ (err (500, "Failed to commit transaction"), s)
          | none ↦ elim (fetch new.landmark s') [
            | err m ↦ (err (500, "Failed to fetch created landmark"), s')
            | ok none ↦ (err (500, "Failed to fetch created landmark"), s')
            | ok (some l) ↦ (
              ok (
                  merge_landmark_and_details fetch_weather l
                    (hooked_detail new now body.landmark_detail)),
              record s' { audits = or_same s'.audits (audits.create s'.audits (audit now l.id)) },
            )
          ]
        ]
      ]
    ]
  ]
