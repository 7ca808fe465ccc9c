-- ===== src/Models/Landmark.antt =====
-- internal/models/landmark.go: landmarks, their images, details and submissions, with the hooks.
pub mod Hooks
use landmark_api.Common.{
  ℕ, String, Bool, true, false, List, [], ◌∷◌, ◌++◌, if◌then◌else◌, not, ◌&&◌, Option, none, some,
}
use landmark_api.Common.Text.{is_empty}
use landmark_api.Calendar.{Time, zero_time}
use landmark_api.Models.{Uuid, Float64, or_new_id, or_now}

pub record LandmarkImage : Type 0 where
  pub id : Uuid
  pub landmark_id : Uuid
  pub image_url : String
  pub created_at : Time
  pub updated_at : Time

pub record Landmark : Type 0 where
  pub id : Uuid
  pub name : String
  pub description : String
  pub latitude : Float64
  pub longitude : Float64
  pub country : String
  pub city : String
  pub category : String
  pub image_url : String
  pub images : List LandmarkImage
  pub created_at : Time
  pub updated_at : Time

-- map[string]string
abbrev pub StringMap : Type 0
StringMap = List (String × String)

pub record LandmarkDetail : Type 0 where
  pub id : Uuid
  pub landmark_id : Uuid
  pub opening_hours : StringMap
  pub ticket_prices : StringMap
  pub historical_significance : String
  pub visitor_tips : String
  pub accessibility_info : String
  pub created_at : Time
  pub updated_at : Time

pub record SubmissionLandmarkImage : Type 0 where
  pub id : Uuid
  pub submission_landmark_id : Uuid
  pub image_url : String
  pub created_at : Time
  pub updated_at : Time

pub record SubmissionLandmarkDetail : Type 0 where
  pub id : Uuid
  pub submission_landmark_id : Uuid
  pub opening_hours : StringMap
  pub ticket_prices : StringMap
  pub historical_significance : String
  pub visitor_tips : String
  pub accessibility_info : String
  pub created_at : Time
  pub updated_at : Time

pub record SubmissionLandmark : Type 0 where
  pub id : Uuid
  pub name : String
  pub description : String
  pub latitude : Float64
  pub longitude : Float64
  pub country : String
  pub city : String
  pub category : String
  pub status : String
  pub images : List SubmissionLandmarkImage
  pub detail : SubmissionLandmarkDetail
  pub created_at : Time
  pub updated_at : Time

-- (*Landmark).BeforeCreate
unfoldable pub before_create : Uuid → Time → Landmark → Landmark
before_create fresh now l = record l {
  id = or_new_id fresh l.id;
  created_at = or_now now l.created_at;
  updated_at = or_now now l.updated_at;
}

-- (*Landmark).BeforeUpdate
abbrev pub before_update : Time → Landmark → Landmark
before_update now l = record l { updated_at = now }

-- (*LandmarkDetail).BeforeCreate
unfoldable pub before_create_detail : Uuid → Time → LandmarkDetail → LandmarkDetail
before_create_detail fresh now d = record d {
  id = or_new_id fresh d.id;
  created_at = or_now now d.created_at;
  updated_at = or_now now d.updated_at;
}

unfoldable pub get_main_image : Landmark → String
get_main_image l = elim l.images [ [] ↦ l.image_url | i ∷ rest ↦ i.image_url ]

-- AddImage, for the id that uuid.New gives.
unfoldable pub add_image : Uuid → String → Landmark → Landmark
add_image fresh url l = record l {
  images =
      l.images
      ++ record {
        id = fresh;
        landmark_id = l.id;
        image_url = url;
        created_at = zero_time;
        updated_at = zero_time;
      }
        ∷ [];
}

-- BeforeSave, for the id that uuid.New gives.
unfoldable pub before_save : Uuid → Landmark → Landmark
unfolding add_image
before_save fresh l = elim l.images [
  | [] ↦ if is_empty l.image_url then l else add_image fresh l.image_url l
  | i ∷ rest ↦ if is_empty l.image_url then record l { image_url = i.image_url } else l
]
