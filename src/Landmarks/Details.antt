-- ===== src/Landmarks/Details.antt =====
-- GetDetails of internal/repository/landmark_repository.go and GetLandmarkDetails of
-- internal/services/landmark_service.go.
use landmark_api.Common.{
  String, none, some, Result, ok, err, ◌>>=◌, if◌then◌else◌, ◌==◌, eqb, map_err,
}
use landmark_api.Calendar.{Time}
use landmark_api.Errors.{Error, driver, insufficient_subscription}
use landmark_api.Models.{Uuid, SubscriptionPlan, free_plan}
use landmark_api.Models.Landmark.{LandmarkDetail, StringMap}
use landmark_api.Database.{Table, with_where}

-- The columns that GetDetails selects; the two maps are stored as JSON texts. It names the table
-- and no model, so the rows that are marked as deleted are among those that it reads.
pub record DetailRow : Type 0 where
  pub id : Uuid
  pub landmark_id : Uuid
  pub opening_hours : String
  pub ticket_prices : String
  pub historical_significance : String
  pub visitor_tips : String
  pub accessibility_info : String
  pub created_at : Time
  pub updated_at : Time

-- (*LandmarkDetail).BeforeUpdate
abbrev pub before_update_detail : Time → DetailRow → DetailRow
before_update_detail now d = record d { updated_at = now }

abbrev pub detail_of : DetailRow → StringMap → StringMap → LandmarkDetail
detail_of r hours prices = record {
  id = r.id;
  landmark_id = r.landmark_id;
  opening_hours = hours;
  ticket_prices = prices;
  historical_significance = r.historical_significance;
  visitor_tips = r.visitor_tips;
  accessibility_info = r.accessibility_info;
  created_at = r.created_at;
  updated_at = r.updated_at;
}

-- `unmarshal` is json.Unmarshal into a map of texts.
module _ {DS : Type 0} (details : Table DS DetailRow)
    (unmarshal : String → Result String StringMap) where
  -- Scan of a row that is not there fails with sql.ErrNoRows, which is not gorm.ErrRecordNotFound.
  unfoldable pub get_details : Uuid → DS → Result Error LandmarkDetail
  get_details id s = elim (details.first s (with_where (λ r. eqb r.landmark_id id))) [
    | err m ↦ err (driver m)
    | ok none ↦ err (driver "sql: no rows in result set")
    | ok (some r) ↦ do
      hours ← map_err driver (unmarshal r.opening_hours)
      prices ← map_err driver (unmarshal r.ticket_prices)
      ok (detail_of r hours prices)
  ]

  unfoldable pub get_landmark_details : Uuid → SubscriptionPlan → DS → Result Error LandmarkDetail
  unfolding get_details
  get_landmark_details id plan s =
      if plan == free_plan then err insufficient_subscription else get_details id s
