-- ===== src/Tests/Creation.antt =====
-- The creation of a landmark and of a submission at concrete requests.
use landmark_api.Common.{◌+◌, String, none, some, Option, List, [], ◌∷◌, ◌++◌, Result, ok, eqb}
use landmark_api.Calendar.{zero_time}
use landmark_api.Models.{Uuid, Float64, AuditLog}
use landmark_api.Models.Landmark.{
  Landmark, LandmarkImage, LandmarkDetail, SubmissionLandmark, SubmissionLandmarkImage,
  SubmissionLandmarkDetail,
}
use landmark_api.Database.{Table}
use landmark_api.Database.Memory
use landmark_api.Landmarks.Creation.{Store, LandmarkData, NewIds, create_landmark}
use landmark_api.Landmarks.Creation.Stored.{IsCreation, create_landmark-IsCreation}
use landmark_api.Submissions.Creation
use landmark_api.Submissions.Creation.Stored
use landmark_api.Tests.Fixtures.{today, bridge, uuid_string}
use landmark_api.Tests.Submissions.{landmarks, images, details, audits, tower}

abbrev no_weather : Float64 → Float64 → Option String
no_weather lat lon = none

abbrev no_detail : LandmarkDetail
no_detail = record {
  id = 0;
  landmark_id = 0;
  opening_hours = [];
  ticket_prices = [];
  historical_significance = "";
  visitor_tips = "";
  accessibility_info = "";
  created_at = zero_time;
  updated_at = zero_time;
}

abbrev body : LandmarkData
body = record {
  landmark = bridge;
  landmark_detail = no_detail;
  image_urls = "a.jpg" ∷ "b.jpg" ∷ [];
}

abbrev new : NewIds
new = record { landmark = 40; detail = 41; image = λ n. n + 42; hook = 50 }

abbrev save_images : List LandmarkImage → List LandmarkImage → Result String (List LandmarkImage)
save_images s own = ok (own ++ s)

abbrev of_landmark : List LandmarkImage → Uuid → List LandmarkImage
of_landmark s id = s

abbrev empty : Store (List Landmark) (List LandmarkImage) (List LandmarkDetail) (List AuditLog)
empty = record { landmarks = []; images = []; details = []; audits = [] }

-- The image of the landmark itself is stored beside those of the two urls.
create_landmark-IsCreation_example :
    IsCreation landmarks images details audits save_images of_landmark uuid_string no_weather
      (Memory.laws (λ a b. eqb a.id b.id))
      (Memory.laws (λ a b. eqb a.id b.id))
      (Memory.laws (λ a b. eqb a.id b.id))
      new
      today
      (some body)
      empty
      (create_landmark landmarks images details audits save_images of_landmark uuid_string
        no_weather none none new today
        (some body)
        empty)
create_landmark-IsCreation_example =
    create_landmark-IsCreation landmarks images details audits save_images of_landmark uuid_string
      no_weather (Memory.laws (λ a b. eqb a.id b.id)) (Memory.laws (λ a b. eqb a.id b.id))
      (Memory.laws (λ a b. eqb a.id b.id)) none none new today (some body) empty

abbrev submissions : Table (List SubmissionLandmark) SubmissionLandmark
submissions = Memory.table (λ a b. eqb a.id b.id)

abbrev submission_images : Table (List SubmissionLandmarkImage) SubmissionLandmarkImage
submission_images = Memory.table (λ a b. eqb a.id b.id)

abbrev submission_details : Table (List SubmissionLandmarkDetail) SubmissionLandmarkDetail
submission_details = Memory.table (λ a b. eqb a.id b.id)

abbrev save_associations :
    SubmissionLandmark
    → List SubmissionLandmarkImage
    → List SubmissionLandmarkDetail
    → Result String (List SubmissionLandmarkImage × List SubmissionLandmarkDetail)
save_associations x is ds = ok (x.images ++ is, ds)

abbrev submitted : Creation.SubmissionData
submitted = record {
  landmark = tower;
  landmark_detail = tower.detail;
  image_urls = "side.jpg" ∷ [];
}

abbrev submission_ids : Creation.NewIds
submission_ids = record { submission = 60; detail = 61; image = λ n. n + 62 }

abbrev no_submissions :
    Creation.Store
      (List SubmissionLandmark)
      (List SubmissionLandmarkImage)
      (List SubmissionLandmarkDetail)
      (List AuditLog)
no_submissions = record { submissions = []; images = []; details = []; audits = [] }

create_submission-IsCreation_example :
    Stored.IsCreation submissions submission_images submission_details audits save_associations
      uuid_string
      (Memory.laws (λ a b. eqb a.id b.id))
      (Memory.laws (λ a b. eqb a.id b.id))
      (Memory.laws (λ a b. eqb a.id b.id))
      submission_ids
      today
      (some submitted)
      no_submissions
      (Creation.create_submission submissions submission_images submission_details audits
        save_associations uuid_string none none submission_ids today
        (some submitted)
        no_submissions)
create_submission-IsCreation_example =
    Stored.create_submission-IsCreation submissions submission_images submission_details audits
      save_associations uuid_string (Memory.laws (λ a b. eqb a.id b.id))
      (Memory.laws (λ a b. eqb a.id b.id)) (Memory.laws (λ a b. eqb a.id b.id)) none none
      submission_ids today (some submitted) no_submissions
