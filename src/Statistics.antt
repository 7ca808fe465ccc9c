-- ===== src/Statistics.antt =====
-- Counts of landmarks and the list of categories: internal/services/landmark_stats_service.go,
-- internal/repository/landmark_stats_repository.go, internal/api/handlers/landmark_stats_handler.go,
-- and category_service.go, category_repository.go and category_handler.go beside them.
use landmark_api.Common.{
  ℕ, String, true, Option, none, some, List, [], ◌∷◌, Result, ok, err, map_err, ◌>>=◌, length,
}
use landmark_api.Common.Int.{ℤ, pos}
use landmark_api.Common.Maps.{Map, insert}
use landmark_api.Errors.{Error, driver}
use landmark_api.Models.Landmark.{Landmark}
use landmark_api.Database.{Table, with_where}
use landmark_api.Http.{Writer}
use landmark_api.Http.Responses.{respond_with_json, respond_with_error}

pub record LandmarkStats : Type 0 where
  pub total_landmarks : ℕ
  pub landmarks_by_category : Map ℕ
  pub landmarks_by_country : Map ℕ
  pub recently_added : List Landmark

-- The statistics, {"categories": …, "total": …}, or {"error": message}.
pub data Answer : Type 0 where
  stats : LandmarkStats → Answer
  categories : List String → ℕ → Answer
  refusal : String → Answer

-- The loops that put the rows of a GROUP BY into a map.
unfoldable pub by_key : List (String × ℕ) → Map ℕ → Map ℕ
by_key [] counts = counts
by_key ((key, n) ∷ rest) counts = by_key rest (insert key n counts)

-- `group_count` is SELECT column, count(*) … GROUP BY column, and `distinct` is SELECT DISTINCT.
module _ {S : Type 0} (landmarks : Table S Landmark)
    (group_count : S → (Landmark → String) → Result String (List (String × ℕ)))
    (distinct : S → (Landmark → String) → Result String (List String)) where
  unfoldable pub get_total_landmarks : S → Result Error ℕ
  get_total_landmarks s = map_err driver (landmarks.total s (with_where (λ l. true)))

  unfoldable pub get_landmarks_by_category : S → Result Error (Map ℕ)
  unfolding by_key
  get_landmarks_by_category s = do
    results ← map_err driver (group_count s (λ l. l.category))
    ok (by_key results [])

  unfoldable pub get_landmarks_by_country : S → Result Error (Map ℕ)
  unfolding by_key
  get_landmarks_by_country s = do
    results ← map_err driver (group_count s (λ l. l.country))
    ok (by_key results [])

  unfoldable pub get_recently_added_landmarks : ℤ → S → Result Error (List Landmark)
  get_recently_added_landmarks limit s = map_err driver (
      landmarks.find s (record {
        matches = λ l. true;
        order = some "created_at DESC";
        offset = none;
        limit = some limit;
      }))

  -- GetLandmarkStats of the service.
  unfoldable pub get_landmark_stats : S → Result Error LandmarkStats
  unfolding get_total_landmarks get_landmarks_by_category get_landmarks_by_country
      get_recently_added_landmarks
  get_landmark_stats s = do
    total ← get_total_landmarks s
    by_category ← get_landmarks_by_category s
    by_country ← get_landmarks_by_country s
    recent ← get_recently_added_landmarks (pos 5) s
    ok (record {
      total_landmarks = total;
      landmarks_by_category = by_category;
      landmarks_by_country = by_country;
      recently_added = recent;
    })

  -- ListAllCategories, and GetAllCategories of the service.
  unfoldable pub list_all_categories : S → Result Error (List String)
  list_all_categories s = map_err driver (distinct s (λ l. l.category))

  module _ (marshal : Answer → Option String) where
    unfoldable pub get_landmark_stats_handler : Writer → S → Writer
    unfolding get_landmark_stats respond_with_json respond_with_error
    get_landmark_stats_handler w s = elim (get_landmark_stats s) [
      | err e ↦ respond_with_error marshal Answer.refusal 500 "Error fetching landmark stats" w
      | ok found ↦ respond_with_json marshal 200 (Answer.stats found) w
    ]

    unfoldable pub list_admin_categories : Writer → S → Writer
    unfolding list_all_categories respond_with_json respond_with_error
    list_admin_categories w s = elim (list_all_categories s) [
      | err e ↦ respond_with_error marshal Answer.refusal 500 "Error fetching categories" w
      | ok found ↦ respond_with_json marshal 200 (Answer.categories found (length found)) w
    ]
