-- ===== src/Landmarks/Handlers.antt =====
-- GetLandmark, the five listings and SearchLandmarks of internal/api/handlers/landmark_handler.go,
-- with the cache of internal/services/cache_service.go.
use landmark_api.Common.{
  ℕ, String, Bool, true, Option, none, some, List, [], ◌∷◌, ◌++◌, Result, ok, err, if◌then◌else◌,
  ◌==◌, ◌&&◌, eqb, length, filter,
}
use landmark_api.Common.Text.{join, ◌+++◌}
use landmark_api.Common.Int.{ℤ, pos}
use landmark_api.Errors.{Error}
use landmark_api.Models.{Uuid, Float64, Subscription, SubscriptionPlan, pro_plan}
use landmark_api.Models.Landmark.{Landmark, LandmarkDetail, StringMap}
use landmark_api.Database.{Table, Query, with_where}
use landmark_api.Http.Responses.{respond_with_json, respond_with_error}
use landmark_api.Http.{Writer, Handler, set, write_header, write}
use landmark_api.Landmarks.Params.{QueryParams, parse_query_params, apply_filters, apply_sorting}
use landmark_api.Landmarks.Details.{DetailRow, get_landmark_details}
use landmark_api.Landmarks.Responses.{Info, Listing, prepare_response, process_landmark_list}

-- What the handlers write as JSON.
pub data Payload : Type 0 where
  info : Option Info → Payload
  listing : Listing → Payload
  -- {"error": message}
  message : String → Payload

-- Redis as the cache service uses it, its expiry and its failures included. `get` is `none` where
-- it gives an error.
pub record Cache (C : Type 0) : Type 0 where
  pub get : C → String → Option String
  pub set : C → String → String → C
  pub delete : C → String → C

-- encoding/json: Marshal of a payload, `none` on an error, and Unmarshal of a text followed by
-- Marshal, `none` where Unmarshal fails.
pub record Json : Type 0 where
  pub marshal : Payload → Option String
  pub again : String → Option String

-- The operations on float64 and the constants that haversine uses.
pub record Floats : Type 0 where
  pub sub : Float64 → Float64 → Float64
  pub add : Float64 → Float64 → Float64
  pub mul : Float64 → Float64 → Float64
  pub div : Float64 → Float64 → Float64
  pub sin : Float64 → Float64
  pub cos : Float64 → Float64
  pub sqrt : Float64 → Float64
  pub atan2 : Float64 → Float64 → Float64
  pub le : Float64 → Float64 → Bool
  pub one : Float64
  pub two : Float64
  -- math.Pi / 180
  pub degree : Float64
  -- R = 6371
  pub radius : Float64

unfoldable pub haversine : Floats → Float64 → Float64 → Float64 → Float64 → Float64
haversine f lat1 lon1 lat2 lon2 =
    let d_lat = f.mul (f.sub lat2 lat1) f.degree in
    let d_lon = f.mul (f.sub lon2 lon1) f.degree in
    let half_lat = f.sin (f.div d_lat f.two) in
    let half_lon = f.sin (f.div d_lon f.two) in
    let a = f.add (f.mul half_lat half_lat) (
      f.mul (f.mul (f.mul (f.cos (f.mul lat1 f.degree)) (f.cos (f.mul lat2 f.degree))) half_lon)
        half_lon) in
    f.mul f.radius (f.mul f.two (f.atan2 (f.sqrt a) (f.sqrt (f.sub f.one a))))

unfoldable pub get_cache_key : List String → String
get_cache_key parts = "landmark:" +++ join ":" parts

-- The tables and the cache.
pub record Store (LS DS C : Type 0) : Type 0 where
  pub landmarks : LS
  pub details : DS
  pub cached : C

-- What a listing does where no landmark is found.
pub data OnEmpty : Type 0 where
  -- Nothing special.
  as_any : OnEmpty
  -- An empty answer with the total 0, kept in the cache.
  empty_kept : OnEmpty
  -- The same, not kept and without a header X-Cache.
  empty_not_kept : OnEmpty

-- A row of `landmarks` holds its images, as Preload("Images") gives them.
module _ {LS DS C : Type 0} (landmarks : Table LS Landmark) (details : Table DS DetailRow)
    (cache : Cache C) (json : Json) (unmarshal : String → Result String StringMap)
    (fetch_weather : Float64 → Float64 → Option String)
    (column_is : String → String → Landmark → Bool) (ilike : String → String → Bool)
    (show_int : ℤ → String) (uuid_parse : String → Option Uuid) where
  -- The answer from the cache, if there is one that can be read.
  unfoldable pub from_cache : String → C → Writer → Option Writer
  from_cache key c w = elim (cache.get c key) [
    | none ↦ none
    | some t ↦ elim (json.again t) [
      | none ↦ none
      | some body ↦ some (
          write body
            (write_header 200 (set "Content-Type" "application/json" (set "X-Cache" "HIT" w))))
    ]
  ]

  -- cacheService.Set, which marshals the value, then the answer.
  unfoldable pub keep_and_respond :
      String → Payload → Writer → Store LS DS C → Writer × Store LS DS C
  unfolding respond_with_json
  keep_and_respond key payload w s = (
    respond_with_json json.marshal 200 payload (set "X-Cache" "MISS" w),
    elim (json.marshal payload) [
      | none ↦ s
      | some t ↦ record s { cached = cache.set s.cached key t }
    ],
  )

  abbrev pub details_of : Store LS DS C → Uuid → SubscriptionPlan → Result Error LandmarkDetail
  details_of s id plan = get_landmark_details details unmarshal id plan s.details

  -- The part of GetLandmark after a miss, with getLandmarkAndSubscription.
  unfoldable pub fetch_landmark : Uuid → String → Subscription → Handler (Store LS DS C)
  unfolding respond_with_error keep_and_respond
  fetch_landmark id key sub r ctx w s = elim ctx.user [
    | none ↦ (respond_with_error json.marshal Payload.message 401 "Unauthorized" w, s)
    | some user ↦ elim (landmarks.first s.landmarks (with_where (λ l. eqb l.id id))) [
      | err m ↦ (respond_with_error json.marshal Payload.message 500 "Error fetching landmark" w, s)
      | ok none ↦ (respond_with_error json.marshal Payload.message 404 "Landmark not found" w, s)
      | ok (some l) ↦
          keep_and_respond key
            (Payload.info
              (prepare_response fetch_weather (details_of s) l sub (parse_query_params r.query)))
            w s
    ]
  ]

  unfoldable pub get_landmark : String → Handler (Store LS DS C)
  unfolding respond_with_error from_cache fetch_landmark
  get_landmark id_text r ctx w s = elim (uuid_parse id_text) [
    | none ↦ (respond_with_error json.marshal Payload.message 400 "Invalid landmark ID" w, s)
    | some id ↦ elim ctx.subscription [
      | none ↦ (respond_with_error json.marshal Payload.message 403 "Subscription not found" w, s)
      | some sub ↦
          let key = get_cache_key ("id" ∷ id_text ∷ sub.plan_type ∷ []) in
          elim (from_cache key s.cached w) [
            | some out ↦ (out, s)
            | none ↦ fetch_landmark id key sub r ctx w s
          ]
    ]
  ]

  -- The key of a listing: its own parts, the page, the order and the plan.
  abbrev pub list_key : List String → QueryParams → SubscriptionPlan → String
  list_key parts p plan = get_cache_key (
      parts
      ++ (("limit:" +++ show_int p.limit)
          ∷ ("offset:" +++ show_int p.offset)
          ∷ ("sort:" +++ (p.sort_by +++ (":" +++ p.sort_order)))
          ∷ plan
          ∷ []))

  abbrev pub list_query : (Landmark → Bool) → QueryParams → Query Landmark
  list_query matches p = record {
    matches = λ l. matches l && apply_filters column_is p.filters l;
    order = some (apply_sorting p.sort_by p.sort_order);
    offset = some p.offset;
    limit = some p.limit;
  }

  -- The count of all landmarks; an error is dropped.
  abbrev or_zero : Result String ℕ → ℕ
  or_zero (ok n) = n
  or_zero (err m) = 0

  abbrev every : Query Landmark
  every = with_where (λ l. true)

  abbrev listing_of : List Landmark → Subscription → QueryParams → Store LS DS C → Listing
  listing_of ls sub p s =
      process_landmark_list fetch_weather (details_of s) ls sub p
        (or_zero (landmarks.total s.landmarks every))

  abbrev empty_listing : QueryParams → Listing
  empty_listing p = record { data_of = []; total = 0; limit = p.limit; offset = p.offset }

  -- The answer for the landmarks that were found.
  unfoldable pub answer_list :
      OnEmpty
      → String
      → List Landmark
      → Subscription
      → QueryParams
      → Writer
      → Store LS DS C
      → Writer × Store LS DS C
  unfolding keep_and_respond respond_with_json
  answer_list OnEmpty.empty_kept key [] sub p w s =
      keep_and_respond key (Payload.listing (empty_listing p)) w s
  answer_list OnEmpty.empty_not_kept key [] sub p w s =
      (respond_with_json json.marshal 200 (Payload.listing (empty_listing p)) w, s)
  answer_list _ key ls sub p w s =
      keep_and_respond key (Payload.listing (listing_of ls sub p s)) w s

  -- What the five listings have in common.
  unfoldable pub list_by : OnEmpty → List String → (Landmark → Bool) → Handler (Store LS DS C)
  unfolding respond_with_error from_cache answer_list
  list_by on_empty parts matches r ctx w s = elim ctx.subscription [
    | none ↦ (respond_with_error json.marshal Payload.message 403 "Subscription not found" w, s)
    | some sub ↦
        let p = parse_query_params r.query in
        let key = list_key parts p sub.plan_type in
        elim (from_cache key s.cached w) [
          | some out ↦ (out, s)
          | none ↦ elim (landmarks.find s.landmarks (list_query matches p)) [
            | err m ↦ (
              respond_with_error json.marshal Payload.message 500 "Error fetching landmarks" w,
              s,
            )
            | ok ls ↦ answer_list on_empty key ls sub p w s
          ]
        ]
  ]

  unfoldable pub list_landmarks : Handler (Store LS DS C)
  list_landmarks = list_by OnEmpty.as_any ("list" ∷ []) (λ l. true)

  unfoldable pub list_landmarks_by_country : String → Handler (Store LS DS C)
  list_landmarks_by_country country =
      list_by OnEmpty.as_any ("country" ∷ country ∷ []) (λ l. l.country == country)

  unfoldable pub list_landmark_by_category : String → Handler (Store LS DS C)
  list_landmark_by_category category =
      list_by OnEmpty.empty_kept ("category" ∷ category ∷ []) (λ l. l.category == category)

  unfoldable pub list_landmarks_by_city : String → Handler (Store LS DS C)
  list_landmarks_by_city city =
      list_by OnEmpty.empty_kept ("city" ∷ city ∷ []) (λ l. ilike l.city city)

  unfoldable pub list_landmarks_by_name : String → Handler (Store LS DS C)
  list_landmarks_by_name name =
      list_by OnEmpty.empty_not_kept ("name" ∷ name ∷ [])
        (λ l. ilike l.name ("%" +++ (name +++ "%")))

  -- `body` is the request's body as decoded: latitude, longitude and radius.
  unfoldable pub search_landmarks :
      Floats → Option (Float64 × Float64 × Float64) → Handler (Store LS DS C)
  unfolding respond_with_error respond_with_json haversine
  search_landmarks f body r ctx w s = elim ctx.subscription [
    | none ↦ (
      respond_with_error json.marshal Payload.message 403 "Forbidden: Pro subscription required" w,
      s,
    )
    | some sub ↦
        if sub.plan_type == pro_plan
        then (elim body [
          | none ↦
              (respond_with_error json.marshal Payload.message 400 "Invalid request payload" w, s)
          | some (lat, lon, radius) ↦ elim (landmarks.find s.landmarks every) [
            | err m ↦ (
              respond_with_error json.marshal Payload.message 500 "Error fetching landmarks" w,
              s,
            )
            | ok ls ↦
                let near =
                  filter (λ l. f.le (haversine f lat lon l.latitude l.longitude) radius) ls in
                let p : QueryParams = record {
                  limit = pos (length near);
                  offset = pos 0;
                  sort_by = "";
                  sort_order = "asc";
                  fields = [];
                  filters = [];
                } in
                (
                  respond_with_json json.marshal 200 (Payload.listing (listing_of near sub p s)) w,
                  s,
                )
          ]
        ])
        else (
          respond_with_error json.marshal Payload.message 403 "Forbidden: Pro subscription required"
              w,
          s,
        )
  ]
