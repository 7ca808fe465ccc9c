-- ===== src/Submissions.antt =====
-- ApproveSubmission and RejectSubmission of internal/api/handlers/landmark_handler.go. The rows of
-- the table of landmarks stand without their images here, which have a table of their own; a
-- submission is read with its images and its detail, as Preload gives them.
pub mod Approval
pub mod Creation
pub mod Review
use landmark_api.Common.{
  ℕ, suc, String, Bool, Option, none, some, List, [], ◌∷◌, Result, ok, err, ◌>>=◌, map_err, eqb,
  if◌then◌else◌,
}
use landmark_api.Calendar.{Time, zero_time}
use landmark_api.Models.{Uuid, AuditLog}
use landmark_api.Models.Landmark.{
  Landmark, LandmarkImage, LandmarkDetail, SubmissionLandmark, SubmissionLandmarkImage,
  before_create, before_create_detail, before_save,
}
use landmark_api.Database.{Table, with_where}

-- What the two handlers read and write.
pub record Store (LS IS DS SS AS : Type 0) : Type 0 where
  pub landmarks : LS
  pub images : IS
  pub details : DS
  pub submissions : SS
  pub audits : AS

-- The ids that uuid.New gives to the landmark, its detail, and its images in their order.
pub record NewIds : Type 0 where
  pub landmark : Uuid
  pub detail : Uuid
  pub image : ℕ → Uuid
  -- The id that the hooks would draw.
  pub hook : Uuid

abbrev pub landmark_of : Uuid → SubmissionLandmark → Landmark
landmark_of id sub = record {
  id = id;
  name = sub.name;
  description = sub.description;
  latitude = sub.latitude;
  longitude = sub.longitude;
  country = sub.country;
  city = sub.city;
  category = sub.category;
  image_url = "";
  images = [];
  created_at = zero_time;
  updated_at = zero_time;
}

-- Gorm fills the times.
abbrev pub image_of : Time → Uuid → Uuid → SubmissionLandmarkImage → LandmarkImage
image_of now id landmark image = record {
  id = id;
  landmark_id = landmark;
  image_url = image.image_url;
  created_at = now;
  updated_at = now;
}

abbrev pub detail_of : Uuid → Uuid → SubmissionLandmark → LandmarkDetail
detail_of id landmark sub = record {
  id = id;
  landmark_id = landmark;
  opening_hours = sub.detail.opening_hours;
  ticket_prices = sub.detail.ticket_prices;
  historical_significance = sub.detail.historical_significance;
  visitor_tips = sub.detail.visitor_tips;
  accessibility_info = sub.detail.accessibility_info;
  created_at = zero_time;
  updated_at = zero_time;
}

abbrev pub has_id : Uuid → SubmissionLandmark → Bool
has_id id x = eqb x.id id

-- Update("status", …) on the model writes the time of the update too.
abbrev pub with_status : Time → String → SubmissionLandmark → SubmissionLandmark
with_status now status x = record x { status = status; updated_at = now }

-- The status and the message of an answer that is an error.
abbrev pub Refusal : Type 0
Refusal = ℕ × String

-- First of a submission: any error is answered with 404.
abbrev pub read_submission :
    Result String (Option SubmissionLandmark) → Result Refusal SubmissionLandmark
read_submission (ok (some sub)) = ok sub
read_submission (ok none) = err (404, "Submission not found")
read_submission (err m) = err (404, "Submission not found")

module _ {LS IS DS SS AS : Type 0} (landmarks : Table LS Landmark) (images : Table IS LandmarkImage)
    (details : Table DS LandmarkDetail) (submissions : Table SS SubmissionLandmark)
    (audits : Table AS AuditLog) (uuid_string : Uuid → String) where
  -- The loop over the submission's images; `n` counts them.
  unfoldable pub create_images :
      (ℕ → Uuid) → Time → Uuid → ℕ → List SubmissionLandmarkImage → IS → Result Refusal IS
  create_images id now landmark n [] s = ok s
  create_images id now landmark n (image ∷ rest) s = do
    s' ←
        map_err (λ m. (500, "Failed to create landmark image"))
          (images.create s (image_of now (id n) landmark image))
    create_images id now landmark (suc n) rest s'

  -- Between Begin and Commit: the submission and the new state.
  unfoldable pub approve_in_tx :
      NewIds
      → Time
      → Uuid
      → Store LS IS DS SS AS
      → Result Refusal (SubmissionLandmark × Store LS IS DS SS AS)
  unfolding create_images
  approve_in_tx new now id s = do
    sub ← read_submission (submissions.first s.submissions (with_where (has_id id)))
    ls ←
        map_err (λ m. (500, "Failed to create new landmark"))
          (landmarks.create s.landmarks
            (before_create new.hook now (before_save new.hook (landmark_of new.landmark sub))))
    is ← create_images new.image now new.landmark 0 sub.images s.images
    ds ←
        map_err (λ m. (500, "Failed to create landmark details"))
          (details.create s.details
            (before_create_detail new.hook now (detail_of new.detail new.landmark sub)))
    updated ←
        map_err (λ m. (500, "Failed to update submission status"))
          (submissions.updates s.submissions (has_id sub.id) (with_status now "approved"))
    ok (sub, record s { landmarks = ls; images = is; details = ds; submissions = updated.0 })

  abbrev audit : Time → String → Uuid → String → AuditLog
  audit now action id text = record {
    admin_id = 0;
    action = action;
    entity_type = "SUBMISSION_LANDMARK";
    entity_id = uuid_string id;
    details = text;
    timestamp = now;
  }

  -- An error of CreateAuditLog is logged and dropped.
  abbrev or_same : AS → Result String AS → AS
  or_same s (ok s') = s'
  or_same s (err m) = s

  abbrev with_audit : AuditLog → Store LS IS DS SS AS → Store LS IS DS SS AS
  with_audit log s = record s { audits = or_same s.audits (audits.create s.audits log) }

  -- `begin` and `commit` are the errors of the transaction. The answer is the new landmark's id.
  unfoldable pub approve_submission :
      Option String
      → Option String
      → NewIds
      → Time
      → Option Uuid
      → Store LS IS DS SS AS
      → Result Refusal Uuid × Store LS IS DS SS AS
  unfolding approve_in_tx
  approve_submission begin commit new now id s = elim id [
    | none ↦ (err (400, "Invalid submission ID"), s)
    | some id ↦ elim begin [
      | some m ↦ (err (500, "Failed to start database transaction"), s)
      | none ↦ elim (approve_in_tx new now id s) [
        | err refusal ↦ (err refusal, s)
        | ok (sub, s') ↦ elim commit [
          | some m ↦ (err (500, "Failed to commit transaction"), s)
          | none ↦ (
            ok new.landmark,
            with_audit (audit now "APPROVE" sub.id "Approved landmark submission") s',
          )
        ]
      ]
    ]
  ]

  unfoldable pub reject_submission :
      Time → Option Uuid → Store LS IS DS SS AS → Option Refusal × Store LS IS DS SS AS
  reject_submission now id s = elim id [
    | none ↦ (some (400, "Invalid submission ID"), s)
    | some id ↦ elim (submissions.first s.submissions (with_where (has_id id))) [
      | err m ↦ (some (404, "Submission not found"), s)
      | ok none ↦ (some (404, "Submission not found"), s)
      | ok (some sub) ↦
          elim (submissions.updates s.submissions (has_id sub.id) (with_status now "rejected")) [
            | err m ↦ (some (500, "Failed to update submission status"), s)
            | ok (ss, n) ↦ (
              none,
              with_audit (audit now "REJECT" sub.id "Rejected landmark submission")
                  (record s { submissions = ss }),
            )
          ]
    ]
  ]
