-- ===== src/Tests/Edits.antt =====
-- An edit of a landmark over tables in memory.
use landmark_api.Common.{ℕ, String, ◌≡◌, ◌⊎◌, none, some, List, [], ◌∷◌, Result, ok, err, eqb}
use landmark_api.Models.Landmark.{Landmark, LandmarkDetail}
use landmark_api.Database.{TableLaws}
use landmark_api.Database.Memory
use landmark_api.Landmarks.Details.{DetailRow}
use landmark_api.Landmarks.Responses.{Info}
use landmark_api.Landmarks.Admin.{Edit, admin_edit_handler}
use landmark_api.Landmarks.Admin.Edits.{Refusal, IsEdited, IsShown, admin_edit_handler_lem}
use landmark_api.Tests.Fixtures.{bridge, today}
use landmark_api.Tests.Landmarks.{landmarks, details, unmarshal, no_weather, detail}
use landmark_api.Models.{Uuid}

abbrev landmarks_laws : TableLaws landmarks
landmarks_laws = Memory.laws (λ l m. eqb l.id m.id)

abbrev details_laws : TableLaws details
details_laws = Memory.laws (λ d e. eqb d.id e.id)

abbrev edit : Edit
edit = record {
  name = "Stari Most";
  description = "An Ottoman bridge.";
  latitude = bridge.latitude;
  longitude = bridge.longitude;
  country = "Bosnia and Herzegovina";
  city = "Mostar";
  category = "bridge";
  opening_hours = "{}";
  ticket_prices = "{}";
  historical_significance = "Rebuilt in 2004.";
  visitor_tips = "";
  accessibility_info = "";
}

abbrev scan : DetailRow → Result String LandmarkDetail
scan d = ok (record {
  id = d.id;
  landmark_id = d.landmark_id;
  opening_hours = [];
  ticket_prices = [];
  historical_significance = d.historical_significance;
  visitor_tips = d.visitor_tips;
  accessibility_info = d.accessibility_info;
  created_at = d.created_at;
  updated_at = d.updated_at;
})

abbrev stored : List Landmark × List DetailRow
stored = (bridge ∷ [], detail ∷ [])

admin_edit_handler_lem_example :
    let o =
      admin_edit_handler landmarks details unmarshal no_weather scan none none today
        (some 7)
        (some edit)
        stored in
    ((why : ℕ × String) × (o ≡ (err why, stored))
      × Refusal landmarks details unmarshal landmarks_laws details_laws no_weather scan none none
          today
          (some 7)
          (some edit)
          stored)
    ⊎ ((i : Uuid) × (e : Edit) × (some 7 ≡ some i)
        × (some edit ≡ some e)
        × IsEdited landmarks details unmarshal landmarks_laws details_laws no_weather scan today i e
            stored o.1
        × ((info : Info)
            → o.0 ≡ ok info
            → IsShown landmarks details unmarshal landmarks_laws details_laws no_weather scan today
                i e stored info))
admin_edit_handler_lem_example =
    admin_edit_handler_lem landmarks details unmarshal landmarks_laws details_laws no_weather scan
      none none today (some 7) (some edit) stored
