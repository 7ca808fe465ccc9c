-- ===== src/Suggestions.antt =====
-- internal/api/handlers/suggestions_handler.go: values of a column that contain a text.
pub mod Answers
use landmark_api.Common.{
  ℕ, ◌*◌, String, Bool, true, false, Option, none, some, List, [], ◌∷◌, ◌++◌, Result, ok, err,
  if◌then◌else◌, ◌==◌, ◌||◌, ◌&&◌, not, any, ltb, length, take,
}
use landmark_api.Common.Text.{is_empty, join, ◌+++◌}
use landmark_api.Common.Words.{trim_space, fields}
use landmark_api.Common.Int.{ℤ, pos, negsuc}
use landmark_api.Errors.{Error, text, message}
use landmark_api.Models.{Float64}
use landmark_api.Models.Landmark.{Landmark}
use landmark_api.Http.{Request, Context, Writer}
use landmark_api.Http.Responses.{respond_with_json, respond_with_error}
use landmark_api.Landmarks.Params.{get_query}
use landmark_api.Landmarks.Handlers.{Cache}

pub record SearchWeights : Type 0 where
  pub exact_match : Float64
  pub trigram : Float64
  pub metaphone : Float64
  pub levenshtein : Float64

pub record SuggestionsConfig : Type 0 where
  pub max_results : ℤ
  -- In nanoseconds.
  pub cache_duration : ℕ
  pub min_similarity : Float64
  pub enabled_search_types : List String
  pub weights : SearchWeights

-- The settings that main.go passes on; 50 is a float64, and the weights are not set.
abbrev pub shipped_config : SuggestionsConfig
shipped_config = record {
  max_results = pos 15;
  cache_duration = 300_000_000_000;
  min_similarity = 4_632_233_691_727_265_792;
  enabled_search_types = "city" ∷ "country" ∷ "category" ∷ "name" ∷ [];
  weights = record { exact_match = 0; trigram = 0; metaphone = 0; levenshtein = 0 };
}

-- SuggestionResponse, or {"error": message}.
pub data Answer : Type 0 where
  suggestions : List String → Answer
  refusal : String → Answer

unfoldable pub get_column_for_search_type : String → String
get_column_for_search_type search_type =
    if search_type == "name"
    then "name"
    else if search_type == "country"
    then "country"
    else if search_type == "category"
    then "category"
    else if search_type == "city"
    then "city"
    else ""

unfoldable pub is_valid_search_type : String → Bool
is_valid_search_type search_type =
    search_type == "name"
    || (search_type == "country" || (search_type == "category" || search_type == "city"))

-- The value of a column that getColumnForSearchType names.
abbrev pub column_value : String → Landmark → String
column_value column l =
    if column == "name"
    then l.name
    else if column == "country"
    then l.country
    else if column == "category"
    then l.category
    else l.city

-- The loop that removes duplicates: `seen` holds the keys of the map.
unfoldable pub add_unseen : List String → List String → List String
add_unseen seen [] = []
add_unseen seen (result ∷ results) =
    let known = any (λ s. s == result) seen in
    let unique = add_unseen (if known then seen else result ∷ seen) results in
    if known then unique else result ∷ unique

-- h.config.MaxResults > 0 && n > h.config.MaxResults, and the number that is kept.
abbrev pub exceeded : ℤ → ℕ → Option ℕ
exceeded (pos max) n = if ltb 0 max && ltb max n then some max else none
exceeded (negsuc max) n = none

unfoldable pub limit_results : Option SuggestionsConfig → List String → List String
limit_results none results = results
limit_results (some config) results = elim (exceeded config.max_results (length results)) [
  | none ↦ results
  | some max ↦ take max results
]

unfoldable pub get_empty_response : String → Answer
get_empty_response search_type = Answer.suggestions []

unfoldable pub build_cache_key : List String → String
build_cache_key parts = "suggestions:" +++ join ":" parts

-- `distinct` is SELECT DISTINCT of a column's values over the landmarks that meet a condition, in
-- their order; `lower_like` is the condition LOWER(value) LIKE pattern; `to_lower` is
-- strings.ToLower.
module _ {S : Type 0}
    (distinct : S → (Landmark → Bool) → (Landmark → String) → Result String (List String))
    (lower_like : String → String → Bool) (to_lower : String → String) where
  abbrev pub contains : String → String → Landmark → Bool
  contains column term l = lower_like (column_value column l) ("%" +++ (to_lower term +++ "%"))

  abbrev pub values_with : String → String → S → Result String (List String)
  values_with column term s = distinct s (contains column term) (column_value column)

  -- The second pass: a word whose query fails is left out.
  unfoldable pub search_words : String → List String → S → List String
  search_words column [] s = []
  search_words column (word ∷ words) s =
      let rest = search_words column words s in
      elim (values_with column word s) [ err m ↦ rest | ok found ↦ found ++ rest ]

  unfoldable pub search_landmarks :
      Option SuggestionsConfig → String → String → S → Result Error (List String)
  unfolding get_column_for_search_type search_words add_unseen limit_results
  search_landmarks config search_type search_term s =
      let column = get_column_for_search_type search_type in
      let term = trim_space search_term in
      if is_empty column
      then err (text "invalid search type")
      else if is_empty term
      then ok []
      else (elim (values_with column term s) [
        | err m ↦ err (text ("database query failed: " +++ m))
        | ok [] ↦ ok (limit_results config (add_unseen [] (search_words column (fields term) s)))
        | ok (v ∷ vs) ↦ ok (limit_results config (v ∷ vs))
      ])

  module _ (marshal : Answer → Option String) where
    -- `search_type` is the variable "type" of the route.
    unfoldable pub get_suggestions :
        Option SuggestionsConfig → String → Request → Writer → S → Writer
    unfolding is_valid_search_type search_landmarks respond_with_json respond_with_error
    get_suggestions config search_type r w s =
        let search_term = get_query "search" r.query in
        if not (is_valid_search_type search_type)
        then respond_with_error marshal Answer.refusal 400 "Invalid search type" w
        else if is_empty search_term
        then respond_with_json marshal 200 (Answer.suggestions []) w
        else (elim (search_landmarks config search_type search_term s) [
          | err e ↦ respond_with_error marshal Answer.refusal 500 "Error performing search" w
          | ok results ↦ respond_with_json marshal 200 (Answer.suggestions results) w
        ])

-- `none` where Marshal fails, and the error is returned. Set of the cache marshals the text once
-- more, which is `quote`; the duration is part of the cache.
unfoldable pub cache_response :
    {C : Type 0}
    → Cache C
    → (Answer → Option String)
    → (String → Option String)
    → String
    → Answer
    → C
    → Option C
cache_response cache marshal quote key response c = elim (marshal response) [
  | none ↦ none
  | some data_text ↦ elim (quote data_text) [
    | none ↦ none
    | some stored ↦ some (cache.set c key stored)
  ]
]

-- One of the two loops of Initialize, over statements that `exec` runs.
unfoldable pub exec_all :
    {S : Type 0} → (S → String → Result String S) → String → List String → S → Option Error × S
exec_all exec what [] s = (none, s)
exec_all exec what (statement ∷ statements) s = elim (exec s statement) [
  | err m ↦ (some (text ("failed to create " +++ (what +++ (": " +++ m)))), s)
  | ok s' ↦ exec_all exec what statements s'
]

abbrev extensions : List String
extensions =
    "CREATE EXTENSION IF NOT EXISTS pg_trgm;" ∷ "CREATE EXTENSION IF NOT EXISTS fuzzystrmatch;"
    ∷ "CREATE EXTENSION IF NOT EXISTS unaccent;" ∷ []

abbrev indexes : List String
indexes =
    "CREATE INDEX IF NOT EXISTS idx_landmarks_name_trgm ON landmarks USING gin (name gin_trgm_ops);"
    ∷ "CREATE INDEX IF NOT EXISTS idx_landmarks_country_trgm ON landmarks USING gin (country gin_trgm_ops);"
    ∷ "CREATE INDEX IF NOT EXISTS idx_landmarks_category_trgm ON landmarks USING gin (category gin_trgm_ops);"
    ∷ "CREATE INDEX IF NOT EXISTS idx_landmarks_city_trgm ON landmarks USING gin (city gin_trgm_ops);"
    ∷ []

unfoldable pub initialize : {S : Type 0} → (S → String → Result String S) → S → Option Error × S
unfolding exec_all
initialize exec s =
    let (e, s') = exec_all exec "extension" extensions s in
    elim e [ some e ↦ (some e, s') | none ↦ exec_all exec "index" indexes s' ]

-- NewSuggestionsHandler: the error, and the state after Initialize.
unfoldable pub new_suggestions_handler :
    {S : Type 0} → (S → String → Result String S) → S → Option Error × S
unfolding initialize message
new_suggestions_handler exec s =
    let (e, s') = initialize exec s in
    elim e [
      | some e ↦ (some (text ("failed to initialize handler: " +++ message e)), s')
      | none ↦ (none, s')
    ]
