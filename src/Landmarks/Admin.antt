-- ===== src/Landmarks/Admin.antt =====
-- ListAdminLandmarks and AdminEditHandler of internal/api/handlers/landmark_handler.go. Details are
-- the rows of `Details`.
pub mod Edits
use landmark_api.Common.{
  ℕ, String, Bool, Option, none, some, List, [], ◌∷◌, Result, ok, err, map_err, ◌>>=◌,
  if◌then◌else◌, eqb,
}
use landmark_api.Common.Int.{ℤ, pos, below_one}
use landmark_api.Common.Maps.{insert}
use landmark_api.Calendar.{Time}
use landmark_api.Models.{Uuid, Float64}
use landmark_api.Models.Landmark.{Landmark, LandmarkDetail, StringMap, before_update}
use landmark_api.Database.{Table, with_where}
use landmark_api.Http.{Request, Writer}
use landmark_api.Http.Responses.{respond_with_json, respond_with_error}
use landmark_api.Landmarks.Params.{get_query, checked_atoi}
use landmark_api.Landmarks.Details.{DetailRow, get_details, before_update_detail}
use landmark_api.Landmarks.Responses.{
  Info, Value, filter_basic_landmark_info, merge_landmark_and_details,
}
use landmark_api.Landmarks.Rows.{list_with_filters, has_id}

-- `if err != nil || n < 1 { n = default }`
abbrev pub at_least_one : ℕ → String → ℤ
at_least_one default s = elim (checked_atoi s) [
  | none ↦ pos default
  | some z ↦ if below_one z then pos default else z
]

-- {"landmarks": …, "total": …, "page": …, "per_page": …}, or {"error": message}.
pub data Answer : Type 0 where
  listing : List (Info × Time × Time) → ℕ → ℤ → ℤ → Answer
  refusal : String → Answer

-- The fields of a landmark with its admin details; created_at and updated_at stand beside them.
unfoldable pub full_landmark : Landmark → LandmarkDetail → Info × Time × Time
unfolding filter_basic_landmark_info
full_landmark l d = (
  insert "accessibility_info" (Value.text d.accessibility_info) (
      insert "visitor_tips" (Value.text d.visitor_tips) (
        insert "historical_significance" (Value.text d.historical_significance) (
          insert "ticket_prices" (Value.texts d.ticket_prices) (
            insert "opening_hours" (Value.texts d.opening_hours) (filter_basic_landmark_info l))))),
  l.created_at,
  l.updated_at,
)

-- The request body of AdminEditHandler. The two maps of the detail are texts here.
pub record Edit : Type 0 where
  pub name : String
  pub description : String
  pub latitude : Float64
  pub longitude : Float64
  pub country : String
  pub city : String
  pub category : String
  pub opening_hours : String
  pub ticket_prices : String
  pub historical_significance : String
  pub visitor_tips : String
  pub accessibility_info : String

-- Updates by a map writes every column that it names.
abbrev pub edited : Time → Edit → Landmark → Landmark
edited now e l = before_update now (record l {
  name = e.name;
  description = e.description;
  latitude = e.latitude;
  longitude = e.longitude;
  country = e.country;
  city = e.city;
  category = e.category;
})

abbrev pub edited_detail : Time → Edit → DetailRow → DetailRow
edited_detail now e d = before_update_detail now (record d {
  opening_hours = e.opening_hours;
  ticket_prices = e.ticket_prices;
  historical_significance = e.historical_significance;
  visitor_tips = e.visitor_tips;
  accessibility_info = e.accessibility_info;
})

abbrev pub of_landmark : Uuid → DetailRow → Bool
of_landmark id d = eqb d.landmark_id id

module _ {LS DS : Type 0} (landmarks : Table LS Landmark) (details : Table DS DetailRow)
    (unmarshal : String → Result String StringMap) where
  -- The loop of ListAdminLandmarks: a landmark whose details cannot be read is left out.
  unfoldable pub full_landmarks : DS → List Landmark → List (Info × Time × Time)
  unfolding full_landmark
  full_landmarks ds [] = []
  full_landmarks ds (l ∷ ls) =
      let rest = full_landmarks ds ls in
      elim (get_details details unmarshal l.id ds) [
        | err e ↦ rest
        | ok d ↦ full_landmark l d ∷ rest
      ]

  unfoldable pub list_admin_landmarks :
      (Answer → Option String) → (String → String → Bool) → Request → Writer → LS × DS → Writer
  unfolding full_landmarks respond_with_json respond_with_error list_with_filters
  list_admin_landmarks marshal ilike r w (ls, ds) =
      let page = at_least_one 1 (get_query "page" r.query) in
      let per_page = at_least_one 10 (get_query "per_page" r.query) in
      let search_term = get_query "search" r.query in
      let category = get_query "category" r.query in
      elim (list_with_filters landmarks ilike page per_page search_term category ls) [
        | err e ↦ respond_with_error marshal Answer.refusal 500 "Error fetching landmarks" w
        | ok (found, total) ↦
            respond_with_json marshal 200
              (Answer.listing (full_landmarks ds found) total page per_page) w
      ]

  -- Between Begin and Commit of AdminEditHandler.
  unfoldable pub edit_in_tx : Time → Uuid → Edit → LS × DS → Result (ℕ × String) (LS × DS)
  edit_in_tx now id e (ls, ds) = do
    l ←
        map_err (λ m. (500, "Failed to update landmark"))
          (landmarks.updates ls (has_id id) (edited now e))
    d ←
        map_err (λ m. (500, "Failed to update landmark details"))
          (details.updates ds (of_landmark id) (edited_detail now e))
    ok (l.0, d.0)

  -- The answer after the commit: `scan` reads a row into the model.
  unfoldable pub fetch_edited :
      (Float64 → Float64 → Option String)
      → (DetailRow → Result String LandmarkDetail)
      → Uuid
      → LS × DS
      → Result (ℕ × String) Info
  unfolding merge_landmark_and_details
  fetch_edited fetch_weather scan id (ls, ds) = do
    l ← elim (landmarks.first ls (with_where (has_id id))) [
      | ok (some l) ↦ ok l
      | ok none ↦ err (500, "Failed to fetch updated landmark")
      | err m ↦ err (500, "Failed to fetch updated landmark")
    ]
    row ← elim (details.first ds (with_where (of_landmark id))) [
      | ok (some d) ↦ ok d
      | ok none ↦ err (500, "Failed to fetch updated landmark details")
      | err m ↦ err (500, "Failed to fetch updated landmark details")
    ]
    d ← map_err (λ m. (500, "Failed to fetch updated landmark details")) (scan row)
    ok (merge_landmark_and_details fetch_weather l d)

  -- `id` and `body` are `none` where the id or the request is not valid; `begin` and `commit` are
  -- the errors of the transaction. An answer that is no refusal has the status 200.
  unfoldable pub admin_edit_handler :
      (Float64 → Float64 → Option String)
      → (DetailRow → Result String LandmarkDetail)
      → Option String
      → Option String
      → Time
      → Option Uuid
      → Option Edit
      → LS × DS
      → Result (ℕ × String) Info × (LS × DS)
  unfolding edit_in_tx fetch_edited
  admin_edit_handler fetch_weather scan begin commit now id body s = elim id [
    | none ↦ (err (400, "Invalid landmark ID"), s)
    | some id ↦ elim body [
      | none ↦ (err (400, "Invalid request payload"), s)
      | some e ↦ elim begin [
        | some m ↦ (err (500, "Failed to start database transaction"), s)
        | none ↦ elim (edit_in_tx now id e s) [
          | err why ↦ (err why, s)
          | ok s' ↦ elim commit [
            | some m ↦ (err (500, "Failed to commit transaction"), s)
            | none ↦ (fetch_edited fetch_weather scan id s', s')
          ]
        ]
      ]
    ]
  ]
