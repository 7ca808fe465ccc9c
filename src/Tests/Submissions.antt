-- ===== src/Tests/Submissions.antt =====
-- Approving a submission, at a concrete one.
use landmark_api.Common.{◌+◌, ◌≡◌, ◌⊎◌, none, some, List, [], ◌∷◌, ok, err, eqb, ◌==◌}
use landmark_api.Models.{Uuid, AuditLog}
use landmark_api.Models.Landmark.{Landmark, LandmarkImage, LandmarkDetail, SubmissionLandmark}
use landmark_api.Database.{Table}
use landmark_api.Database.Memory
use landmark_api.Submissions.{Store, NewIds, Refusal, approve_submission}
use landmark_api.Submissions.Approval.{IsApproved, approve_submission_lem}
use landmark_api.Tests.Fixtures.{today, bridge, uuid_string}

abbrev pub landmarks : Table (List Landmark) Landmark
landmarks = Memory.table (λ a b. eqb a.id b.id)

abbrev pub images : Table (List LandmarkImage) LandmarkImage
images = Memory.table (λ a b. eqb a.id b.id)

abbrev pub details : Table (List LandmarkDetail) LandmarkDetail
details = Memory.table (λ a b. eqb a.id b.id)

abbrev pub submissions : Table (List SubmissionLandmark) SubmissionLandmark
submissions = Memory.table (λ a b. eqb a.id b.id)

abbrev pub audits : Table (List AuditLog) AuditLog
audits = Memory.table (λ a b. a.entity_id == b.entity_id)

abbrev pub tower : SubmissionLandmark
tower = record {
  id = 30;
  name = "Clock Tower";
  description = "";
  latitude = 0;
  longitude = 0;
  country = "Bosnia";
  city = "Mostar";
  category = "tower";
  status = "pending";
  images =
      record {
        id = 31;
        submission_landmark_id = 30;
        image_url = "tower.jpg";
        created_at = today;
        updated_at = today;
      }
      ∷ [];
  detail = record {
    id = 32;
    submission_landmark_id = 30;
    opening_hours = [];
    ticket_prices = [];
    historical_significance = "";
    visitor_tips = "";
    accessibility_info = "";
    created_at = today;
    updated_at = today;
  };
  created_at = today;
  updated_at = today;
}

abbrev pub store :
    Store
      (List Landmark)
      (List LandmarkImage)
      (List LandmarkDetail)
      (List SubmissionLandmark)
      (List AuditLog)
store = record {
  landmarks = bridge ∷ [];
  images = [];
  details = [];
  submissions = tower ∷ [];
  audits = [];
}

abbrev pub new_ids : NewIds
new_ids = record { landmark = 40; detail = 41; image = λ n. n + 50; hook = 49 }

approve_submission_lem_example :
    let (answer, s') =
      approve_submission landmarks images details submissions audits uuid_string none none new_ids
        today
        (some 30)
        store in
    ((refusal : Refusal) × (answer ≡ err refusal) × (s' ≡ store))
    ⊎ ((i : Uuid) × (sub : SubmissionLandmark) × (some 30 ≡ some i)
        × (answer ≡ ok 40)
        × IsApproved landmarks images details submissions audits
            (Memory.laws _)
            (Memory.laws _)
            (Memory.laws _)
            (Memory.laws _)
            uuid_string
            new_ids
            today
            i
            sub
            store
            s')
approve_submission_lem_example =
    approve_submission_lem landmarks images details submissions audits (Memory.laws _)
      (Memory.laws _) (Memory.laws _) (Memory.laws _) uuid_string none none new_ids today (some 30)
      store
