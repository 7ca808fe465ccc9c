-- ===== src/Landmarks/Plans.antt =====
-- What a plan lets its clients see.
use landmark_api.Common.{
  String, ◌≡◌, refl, Bool, true, false, Option, none, some, List, [], ◌∷◌, Result, if◌then◌else◌,
  ◌==◌, eq_iff, inl, inr, Bool-cases, arith, All,
}
use mathlib.Core.Path.{subst}
use landmark_api.Common.Maps.{lookup, lookup-insert, lookup-nil}
use landmark_api.Errors.{Error}
use landmark_api.Models.{Uuid, Float64, Subscription, SubscriptionPlan, free_plan}
use landmark_api.Models.Landmark.{Landmark, LandmarkDetail}
use landmark_api.Landmarks.Params.{QueryParams}
use landmark_api.Landmarks.Responses.{
  Info, Value, filter_fields, filter_basic_landmark_info, set_field, by_fields, prepare_response,
  process_landmark,
}

abbrev pub is_one_of : String → List String → Bool
is_one_of k [] = false
is_one_of k (j ∷ js) = let rest = is_one_of k js in if j == k then true else rest

abbrev or_else : {A : Type 0} → Option A → Option A → Option A
or_else none o = o
or_else (some a) o = some a

set_field-lookup :
    (info : Info) (field k : String) (o : Option Value) (result : Info)
    → lookup k (set_field info field o result)
      ≡ (if field == k then or_else o (lookup k result) else lookup k result)
set_field-lookup info field k none result = ground arith
set_field-lookup info field k (some v) result = rw lookup-insert refl

-- To set a field again changes nothing.
once :
    {A : Type 0} (b : Bool) (o p : Option A)
    → (if b then or_else o (or_else o p) else or_else o p) ≡ or_else o p
once true none p = refl
once true (some a) p = refl
once false o p = refl

or_else-none : {A : Type 0} (o : Option A) → or_else o none ≡ o
or_else-none none = refl
or_else-none (some a) = refl

filter_fields-result :
    (info : Info) (fields : List String) (k : String) (result : Info)
    → lookup k (filter_fields info fields result)
      ≡ (if is_one_of k fields then or_else (lookup k info) (lookup k result) else lookup k result)
unfolding filter_fields
filter_fields-result info [] k result = refl
filter_fields-result info (f ∷ fields) k result =
    rw (filter_fields-result info fields k (set_field info f (lookup f info) result)) (
      rw (set_field-lookup info f k (lookup f info) result) (elim (Bool-cases (f == k)) [
        | inr differ ↦ rw differ refl
        | inl same ↦
            rw same (
              rw ((eq_iff f k).0 same)
                (once (is_one_of k fields) (lookup k info) (lookup k result)))
      ]))

-- The entries that filterFields keeps are those of the fields that are named, with their values.
filter_fields-lookup :
    (info : Info) (fields : List String) (k : String)
    → lookup k (filter_fields info fields []) ≡ (if is_one_of k fields then lookup k info else none)
filter_fields-lookup info fields k =
    rw (filter_fields-result info fields k []) (rw (lookup-nil k) (rw or_else-none refl))

-- The fields that the free plan does not show.
abbrev pub paid_fields : List String
paid_fields =
    "opening_hours" ∷ "ticket_prices" ∷ "historical_significance" ∷ "visitor_tips"
    ∷ "accessibility_info" ∷ "weather_info" ∷ []

-- The entry of an answer; a nil map has none.
abbrev pub shown : String → Option Info → Option Value
shown k none = none
shown k (some info) = lookup k info

one_of-none :
    (info : Info) (k : String) (js : List String)
    → All (λ j. lookup j info ≡ none) js
    → is_one_of k js ≡ true
    → lookup k info ≡ none
one_of-none info k [] a h = ground arith
one_of-none info k (j ∷ js) (here, there) h = elim (Bool-cases (j == k)) [
  | inl same ↦ subst (λ x. lookup x info ≡ none) ((eq_iff j k).0 same) here
  | inr differ ↦ one_of-none info k js there (rw differ at h)
]

basic-unpaid :
    (l : Landmark) (k : String)
    → is_one_of k paid_fields ≡ true
    → lookup k (filter_basic_landmark_info l) ≡ none
unfolding filter_basic_landmark_info lookup
basic-unpaid l k h =
    one_of-none (filter_basic_landmark_info l) k paid_fields
      (refl, (refl, (refl, (refl, (refl, (refl, tt)))))) h

unless : {A : Type 0} (b : Bool) (o : Option A) → o ≡ none → (if b then o else none) ≡ none
unless true o e = e
unless false o e = refl

by_fields-none :
    (fields : List String) (info : Option Info) (k : String)
    → shown k info ≡ none
    → shown k (by_fields fields info) ≡ none
by_fields-none [] info k h = h
by_fields-none (f ∷ fields) none k h = lookup-nil k
by_fields-none (f ∷ fields) (some info) k h =
    rw (filter_fields-lookup info (f ∷ fields) k)
      (unless (is_one_of k (f ∷ fields)) (lookup k info) h)

module _ (fetch_weather : Float64 → Float64 → Option String)
    (get_details : Uuid → SubscriptionPlan → Result Error LandmarkDetail) where
  -- A client with the free plan is never shown one of the paid fields, neither of one landmark nor
  -- in a listing, whatever fields the request names.
  pub free_plan_hides :
      (l : Landmark) (sub : Subscription) (params : QueryParams) (k : String)
      → sub.plan_type ≡ free_plan
      → is_one_of k paid_fields ≡ true
      → (shown k (prepare_response fetch_weather get_details l sub params) ≡ none)
        × (shown k (process_landmark fetch_weather get_details sub params l) ≡ none)
  unfolding prepare_response process_landmark
  free_plan_hides l sub params k free paid =
      let hidden =
        by_fields-none params.fields (some (filter_basic_landmark_info l)) k
          (basic-unpaid l k paid) in
      let test = (eq_iff sub.plan_type free_plan).1 free in (rw test hidden, rw test hidden)
