-- ===== src/Tests/Landmarks.antt =====
-- Queries, plans and the cache of the landmark handlers at concrete requests.
use landmark_api.Common.{
  String, ◌≡◌, Bool, true, false, Option, none, some, List, [], ◌∷◌, Result, ok, err, if◌then◌else◌,
  ◌==◌, Occurs, eqb,
}
use landmark_api.Common.Text.{◌+++◌}
use landmark_api.Common.Int.{ℤ}
use landmark_api.Common.Maps.{lookup, erase}
use landmark_api.Models.{Uuid, Float64}
use landmark_api.Models.Landmark.{Landmark, StringMap}
use landmark_api.Database.{Table}
use landmark_api.Database.Memory
use landmark_api.Http.{Context}
use landmark_api.Landmarks.Params.{
  parse_query_params, apply_sorting, allowed_sort_by, allowed_sort_order, QueryParams,
}
use landmark_api.Landmarks.Ordering.{safe_orders, apply_sorting-safe_orders}
use landmark_api.Landmarks.Details.{DetailRow}
use landmark_api.Landmarks.Responses.{Info, Value}
use landmark_api.Landmarks.Handlers.{Cache, Json, Store}
use landmark_api.Tests.Fixtures.{alice, alice_free, bridge}

abbrev query : List (String × String)
query = ("sort", "-city") ∷ ("category", "bridge") ∷ ("limit", "0") ∷ []

apply_sorting-safe_orders_example :
    Occurs (apply_sorting "name; drop table users" "asc") safe_orders
    × (allowed_sort_by "name; drop table users" ≡ true
        → allowed_sort_order "asc" ≡ true
        → apply_sorting "name; drop table users" "asc"
          ≡ "name; drop table users" +++ (" " +++ "asc"))
apply_sorting-safe_orders_example = apply_sorting-safe_orders "name; drop table users" "asc"

abbrev information : Info
information = ("name", Value.text "Old Bridge") ∷ ("city", Value.text "Mostar") ∷ []

abbrev pub no_weather : Float64 → Float64 → Option String
no_weather lat lon = none

abbrev pub detail : DetailRow
detail = record {
  id = 70;
  landmark_id = 7;
  opening_hours = "{}";
  ticket_prices = "{}";
  historical_significance = "";
  visitor_tips = "Look, do not jump.";
  accessibility_info = "";
  created_at = bridge.created_at;
  updated_at = bridge.updated_at;
}

abbrev pub landmarks : Table (List Landmark) Landmark
landmarks = Memory.table (λ l m. eqb l.id m.id)

abbrev pub details : Table (List DetailRow) DetailRow
details = Memory.table (λ d e. eqb d.id e.id)

abbrev pub unmarshal : String → Result String StringMap
unmarshal s = if s == "{}" then ok [] else err "no JSON"

abbrev params : QueryParams
params = parse_query_params (("fields", "visitor_tips") ∷ [])

abbrev pub cache : Cache (List (String × String))
cache = record { get = λ c k. lookup k c; set = λ c k v. (k, v) ∷ c; delete = λ c k. erase k c }

abbrev pub json : Json
json = record { marshal = λ p. some "{}"; again = λ t. some t }

abbrev pub store : Store (List Landmark) (List DetailRow) (List (String × String))
store = record { landmarks = bridge ∷ []; details = detail ∷ []; cached = [] }

abbrev pub column_is : String → String → Landmark → Bool
column_is column value l = if column == "category" then l.category == value else false

abbrev pub ilike : String → String → Bool
ilike text pattern = text == pattern

abbrev pub show_int : ℤ → String
show_int z = "0"

abbrev pub uuid_parse : String → Option Uuid
uuid_parse t = if t == "7" then some 7 else none

abbrev pub context : Context
context = record { user = some alice; subscription = some alice_free }
