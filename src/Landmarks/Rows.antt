-- ===== src/Landmarks/Rows.antt =====
-- internal/repository/landmark_repository.go but for GetDetails, and the methods of
-- internal/services/landmark_service.go that call it. A row of `landmarks` holds its images.
use landmark_api.Common.{
  ℕ, String, Bool, true, Option, none, some, List, Result, ok, err, map_err, ◌>>=◌, if◌then◌else◌,
  ◌==◌, ◌&&◌, ◌||◌, eqb,
}
use landmark_api.Common.Text.{is_empty, ◌+++◌}
use landmark_api.Common.Int.{ℤ, page_offset}
use landmark_api.Calendar.{Time}
use landmark_api.Errors.{Error, driver, record_not_found}
use landmark_api.Models.{Uuid, Float64}
use landmark_api.Models.Landmark.{Landmark, before_create, before_save, before_update}
use landmark_api.Database.{Table, with_where, with_order}
use landmark_api.Repository.{inserted, affected}

abbrev pub has_id : Uuid → Landmark → Bool
has_id id l = eqb l.id id

abbrev newest : String
newest = "created_at DESC"

abbrev text_or : String → String → String
text_or s stored = if is_empty s then stored else s

abbrev float_or : Float64 → Float64 → Float64
float_or f stored = if eqb f 0 then stored else f

-- Updates by a struct leaves out the fields that are zero.
abbrev pub rewritten : Time → Landmark → Landmark → Landmark
rewritten now given l = before_update now (record l {
  name = text_or given.name l.name;
  description = text_or given.description l.description;
  latitude = float_or given.latitude l.latitude;
  longitude = float_or given.longitude l.longitude;
  country = text_or given.country l.country;
  city = text_or given.city l.city;
  category = text_or given.category l.category;
})

-- `ilike` is the operator of SQL on a text and a pattern.
module _ {S : Type 0} (landmarks : Table S Landmark) (ilike : String → String → Bool) where
  -- A landmark that is not stored is no error.
  unfoldable pub get_by_id : Uuid → S → Result Error (Option Landmark)
  get_by_id id s = map_err driver (landmarks.first s (with_where (has_id id)))

  abbrev pub matches_filters : String → String → Landmark → Bool
  matches_filters search_term category l =
      let pattern = "%" +++ (search_term +++ "%") in
      (is_empty search_term || (ilike l.name pattern || ilike l.description pattern))
      && (is_empty category || l.category == category)

  -- ListWithFilters, and GetLandmarksWithFilters of the service.
  unfoldable pub list_with_filters : ℤ → ℤ → String → String → S → Result Error (List Landmark × ℕ)
  list_with_filters page per_page search_term category s = do
    total ← map_err driver (landmarks.total s (with_where (matches_filters search_term category)))
    found ← map_err driver (
        landmarks.find s (record {
          matches = matches_filters search_term category;
          order = some newest;
          offset = some (page_offset page per_page);
          limit = some per_page;
        }))
    ok (found, total)

  unfoldable pub list : ℤ → ℤ → S → Result Error (List Landmark)
  list limit offset s = map_err driver (
      landmarks.find s (record {
        matches = λ l. true;
        order = some newest;
        offset = some offset;
        limit = some limit;
      }))

  -- ListLandmarks of the service.
  unfoldable pub list_landmarks : ℤ → ℤ → S → Result Error (List Landmark)
  unfolding list
  list_landmarks page page_size s = list page_size (page_offset page page_size) s

  unfoldable pub create : Uuid → Time → Landmark → S → Option Error × S
  create fresh now l s =
      inserted driver s (landmarks.create s (before_create fresh now (before_save fresh l)))

  unfoldable pub update : Time → Landmark → S → Option Error × S
  update now l s = elim (landmarks.updates s (has_id l.id) (rewritten now l)) [
    | err m ↦ (some (driver m), s)
    | ok done ↦ (none, done.0)
  ]

  unfoldable pub delete : Uuid → S → Option Error × S
  delete id s = affected record_not_found driver s (landmarks.delete s (has_id id))

  unfoldable pub find_by_country : String → S → Result Error (List Landmark)
  find_by_country country s =
      map_err driver (landmarks.find s (with_order (λ l. l.country == country) newest))

  unfoldable pub find_by_name : String → S → Result Error (List Landmark)
  find_by_name name s =
      map_err driver
        (landmarks.find s (with_order (λ l. ilike l.name ("%" +++ (name +++ "%"))) newest))
