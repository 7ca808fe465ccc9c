-- ===== src/Submissions/Creation.antt =====
-- CreateSubmission and ListPendingSubmissions of internal/api/handlers/landmark_handler.go. Images
-- and details of submissions have tables of their own here, and a row of `submissions` stands
-- without them.
pub mod Stored
use landmark_api.Common.{
  ℕ, suc, String, Bool, Option, none, some, List, [], ◌∷◌, Result, ok, err, ◌>>=◌, map_err, map,
  eqb, any, ◌==◌, if◌then◌else◌,
}
use landmark_api.Calendar.{Time}
use landmark_api.Models.{Uuid, AuditLog, or_now}
use landmark_api.Models.Landmark.{
  SubmissionLandmark, SubmissionLandmarkImage, SubmissionLandmarkDetail,
}
use landmark_api.Database.{Table, with_where}

pub record Store (SS IS DS AS : Type 0) : Type 0 where
  pub submissions : SS
  pub images : IS
  pub details : DS
  pub audits : AS

-- The request body.
pub record SubmissionData : Type 0 where
  pub landmark : SubmissionLandmark
  pub landmark_detail : SubmissionLandmarkDetail
  pub image_urls : List String

-- What uuid.New gives to the submission, its detail, and its images in their order.
pub record NewIds : Type 0 where
  pub submission : Uuid
  pub detail : Uuid
  pub image : ℕ → Uuid

-- The status and the message of an answer that is an error.
abbrev pub Refusal : Type 0
Refusal = ℕ × String

-- Gorm fills the times that are zero.
abbrev pub pending : NewIds → Time → SubmissionLandmark → SubmissionLandmark
pending new now x = record x {
  id = new.submission;
  status = "pending";
  created_at = or_now now x.created_at;
  updated_at = or_now now x.updated_at;
}

abbrev pub new_image : Time → Uuid → Uuid → String → SubmissionLandmarkImage
new_image now id submission url = record {
  id = id;
  submission_landmark_id = submission;
  image_url = url;
  created_at = now;
  updated_at = now;
}

abbrev pub new_detail : NewIds → Time → SubmissionLandmarkDetail → SubmissionLandmarkDetail
new_detail new now d = record d {
  id = new.detail;
  submission_landmark_id = new.submission;
  created_at = or_now now d.created_at;
  updated_at = or_now now d.updated_at;
}

-- An entry of the answer of ListPendingSubmissions: a submission, and its detail if there is one.
pub record Pending : Type 0 where
  pub submission : SubmissionLandmark
  pub details : Option SubmissionLandmarkDetail

-- The detail of a submission in detailMap: the last one that was put there.
unfoldable pub detail_for : Uuid → List SubmissionLandmarkDetail → Option SubmissionLandmarkDetail
detail_for id [] = none
detail_for id (d ∷ ds) = elim (detail_for id ds) [
  | some later ↦ some later
  | none ↦ if eqb d.submission_landmark_id id then some d else none
]

abbrev pub entry :
    (SubmissionLandmark → SubmissionLandmark)
    → List SubmissionLandmarkDetail
    → SubmissionLandmark
    → Pending
unfolding detail_for
entry preload details x = record { submission = preload x; details = detail_for x.id details }

abbrev or_none : Result String (List SubmissionLandmarkDetail) → List SubmissionLandmarkDetail
or_none (ok ds) = ds
or_none (err m) = []

-- `save_associations` is what Create does with the images and the detail inside the row that it
-- stores: gorm saves the associations of a new row together with it.
module _ {SS IS DS AS : Type 0} (submissions : Table SS SubmissionLandmark)
    (images : Table IS SubmissionLandmarkImage) (details : Table DS SubmissionLandmarkDetail)
    (audits : Table AS AuditLog)
    (save_associations : SubmissionLandmark → IS → DS → Result String (IS × DS))
    (uuid_string : Uuid → String) where
  -- The loop over image_urls; `n` counts them.
  unfoldable pub create_images : NewIds → Time → ℕ → List String → IS → Result Refusal IS
  create_images new now n [] s = ok s
  create_images new now n (url ∷ urls) s = do
    s' ←
        map_err (λ m. (500, "Failed to create landmark image submission"))
          (images.create s (new_image now (new.image n) new.submission url))
    create_images new now (suc n) urls s'

  abbrev create_row : SubmissionLandmark → Store SS IS DS AS → Result String (Store SS IS DS AS)
  create_row x s = do
    ss ← submissions.create s.submissions x
    saved ← save_associations x s.images s.details
    ok (record s { submissions = ss; images = saved.0; details = saved.1 })

  -- Between Begin and Commit.
  unfoldable pub create_in_tx :
      NewIds → Time → SubmissionData → Store SS IS DS AS → Result Refusal (Store SS IS DS AS)
  unfolding create_images
  create_in_tx new now body s = do
    s1 ←
        map_err (λ m. (500, "Failed to create landmark submission"))
          (create_row (pending new now body.landmark) s)
    is ← create_images new now 0 body.image_urls s1.images
    ds ←
        map_err (λ m. (500, "Failed to create landmark details submission"))
          (details.create s1.details (new_detail new now body.landmark_detail))
    ok (record s1 { images = is; details = ds })

  abbrev or_same : AS → Result String AS → AS
  or_same s (ok s') = s'
  or_same s (err m) = s

  -- getUserIDFromContext gives 0.
  abbrev audit : Time → Uuid → AuditLog
  audit now id = record {
    admin_id = 0;
    action = "CREATE";
    entity_type = "SUBMISSION_LANDMARK";
    entity_id = uuid_string id;
    details = "Created landmark submission";
    timestamp = now;
  }

  -- `body` is the decoded request, `none` where it is not valid; `begin` and `commit` are the
  -- errors of the transaction. The answer that is no refusal has the status 201 and the new id.
  unfoldable pub create_submission :
      Option String
      → Option String
      → NewIds
      → Time
      → Option SubmissionData
      → Store SS IS DS AS
      → Result Refusal Uuid × Store SS IS DS AS
  unfolding create_in_tx
  create_submission begin commit new now body s = elim body [
    | none ↦ (err (400, "Invalid request payload"), s)
    | some body ↦ elim begin [
      | some m ↦ (err (500, "Failed to start database transaction"), s)
      | none ↦ elim (create_in_tx new now body s) [
        | err refusal ↦ (err refusal, s)
        | ok s' ↦ elim commit [
          | some m ↦ (err (500, "Failed to commit transaction"), s)
          | none ↦ (
            ok new.submission,
            record s' {
              audits = or_same s'.audits (audits.create s'.audits (audit now new.submission));
            },
          )
        ]
      ]
    ]
  ]

  -- The rows that the handler finds stand with their images, which `preload` adds. Details that
  -- cannot be read count as none.
  unfoldable pub list_pending_submissions :
      (IS → SubmissionLandmark → SubmissionLandmark)
      → Store SS IS DS AS
      → Result Refusal (List Pending)
  unfolding entry
  list_pending_submissions preload s = do
    found ←
        map_err (λ m. (500, "Failed to fetch pending submissions"))
          (submissions.find s.submissions (with_where (λ x. x.status == "pending")))
    let read = or_none (
        details.find s.details
          (with_where (λ d. any (λ x. eqb d.submission_landmark_id x.id) found)))
    ok (map (entry (preload s.images) read) found)
