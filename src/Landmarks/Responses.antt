-- ===== src/Landmarks/Responses.antt =====
-- What a client sees of a landmark: filterBasicLandmarkInfo, mergeLandmarkAndDetails, filterFields,
-- prepareResponse and processLandmarkList of internal/api/handlers/landmark_handler.go.
use landmark_api.Common.{
  ℕ, String, Bool, Option, none, some, List, [], ◌∷◌, Result, ok, err, if◌then◌else◌, ◌==◌, ◌||◌,
  map,
}
use landmark_api.Common.Int.{ℤ}
use landmark_api.Common.Maps.{Map, insert, lookup}
use landmark_api.Errors.{Error}
use landmark_api.Models.{
  Uuid, Float64, Subscription, SubscriptionPlan, free_plan, pro_plan, enterprise_plan,
}
use landmark_api.Models.Landmark.{Landmark, LandmarkImage, LandmarkDetail, StringMap}
use landmark_api.Landmarks.Params.{QueryParams}

-- The values of a response's map.
pub data Value : Type 0 where
  uuid : Uuid → Value
  text : String → Value
  float : Float64 → Value
  images : List LandmarkImage → Value
  texts : StringMap → Value
  -- The weather service's answer, `none` for nil.
  weather : Option String → Value

-- map[string]interface{}; `none` is a nil map, or a nil interface.
abbrev pub Info : Type 0
Info = Map Value

unfoldable pub filter_basic_landmark_info : Landmark → Info
filter_basic_landmark_info l =
    ("id", Value.uuid l.id)
    ∷ ("name", Value.text l.name)
    ∷ ("description", Value.text l.description)
    ∷ ("country", Value.text l.country)
    ∷ ("city", Value.text l.city)
    ∷ ("category", Value.text l.category)
    ∷ ("latitude", Value.float l.latitude)
    ∷ ("longitude", Value.float l.longitude)
    ∷ ("image_url", Value.text l.image_url)
    ∷ ("images", Value.images l.images)
    ∷ []

-- The loop of filterFields: a field that is named twice is set twice.
abbrev pub set_field : Info → String → Option Value → Info → Info
set_field info field none result = result
set_field info field (some v) result = insert field v result

unfoldable pub filter_fields : Info → List String → Info → Info
filter_fields info [] result = result
filter_fields info (field ∷ fields) result =
    filter_fields info fields (set_field info field (lookup field info) result)

-- filterFields: what is no map gives an empty one.
abbrev pub filtered : List String → Option Info → Info
filtered fields none = []
filtered fields (some info) = filter_fields info fields []

-- `if len(params.Fields) > 0`
abbrev pub by_fields : List String → Option Info → Option Info
by_fields [] info = info
by_fields (f ∷ fields) info = some (filtered (f ∷ fields) info)

-- {"data": …, "meta": {"total": …, "limit": …, "offset": …}}
pub record Listing : Type 0 where
  pub data_of : List (Option Info)
  pub total : ℕ
  pub limit : ℤ
  pub offset : ℤ

-- `fetch_weather` is FetchWeatherData, which asks a server.
module _ (fetch_weather : Float64 → Float64 → Option String) where
  unfoldable pub merge_landmark_and_details : Landmark → LandmarkDetail → Info
  merge_landmark_and_details l d =
      insert "weather_info" (Value.weather (fetch_weather l.latitude l.longitude)) (
        insert "accessibility_info" (Value.text d.accessibility_info) (
          insert "visitor_tips" (Value.text d.visitor_tips) (
            insert "historical_significance" (Value.text d.historical_significance) (
              insert "ticket_prices" (Value.texts d.ticket_prices) (
                insert "opening_hours" (Value.texts d.opening_hours)
                  (insert "images" (Value.images l.images) (filter_basic_landmark_info l)))))))

  -- `get_details` is GetLandmarkDetails of the landmark service, on the stored details.
  module _ (get_details : Uuid → SubscriptionPlan → Result Error LandmarkDetail) where
    abbrev is_paid : SubscriptionPlan → Bool
    is_paid plan = plan == pro_plan || plan == enterprise_plan

    unfoldable pub prepare_response : Landmark → Subscription → QueryParams → Option Info
    unfolding filter_basic_landmark_info merge_landmark_and_details
    prepare_response l sub params =
        if sub.plan_type == free_plan
        then by_fields params.fields (some (filter_basic_landmark_info l))
        else if is_paid sub.plan_type
        then (elim (get_details l.id sub.plan_type) [
          | err e ↦ some (filter_basic_landmark_info l)
          | ok d ↦ by_fields params.fields (some (merge_landmark_and_details l d))
        ])
        else by_fields params.fields none

    -- One round of processLandmarkList: a nil map counts as an empty one for filterFields.
    unfoldable pub process_landmark : Subscription → QueryParams → Landmark → Option Info
    unfolding filter_basic_landmark_info merge_landmark_and_details
    process_landmark sub params l = by_fields params.fields (
        if sub.plan_type == free_plan
        then some (filter_basic_landmark_info l)
        else if is_paid sub.plan_type
        then (elim (get_details l.id sub.plan_type) [
          | err e ↦ some (filter_basic_landmark_info l)
          | ok d ↦ some (merge_landmark_and_details l d)
        ])
        else none)

    -- `total` is the count of all landmarks, 0 where the count fails.
    unfoldable pub process_landmark_list : List Landmark → Subscription → QueryParams → ℕ → Listing
    unfolding process_landmark
    process_landmark_list landmarks sub params total = record {
      data_of = map (process_landmark sub params) landmarks;
      total = total;
      limit = params.limit;
      offset = params.offset;
    }
