-- ===== src/Landmarks/Sharing/Requests.antt =====
-- What a request for landmarks leaves in the shared cache and answers.
use landmark_api.Common.{
  ℕ, String, ◌≡◌, refl, ap, Bool, Option, none, some, List, [], ◌∷◌, ◌++◌, map, Result, inl, inr,
  All, eqb, Option-cases, Result-cases,
}
use mathlib.Core.List.{append_assoc}
use landmark_api.Common.Int.{ℤ}
use landmark_api.Common.Text.{Free, ◌+++◌}
use landmark_api.Errors.{Error}
use landmark_api.Models.{Uuid, Float64, Subscription, SubscriptionPlan, free_plan}
use landmark_api.Models.Landmark.{Landmark, LandmarkDetail, StringMap}
use landmark_api.Database.{Table, with_where}
use landmark_api.Http.{Request, Context, Writer, Handler}
use landmark_api.Landmarks.Params.{QueryParams, parse_query_params}
use landmark_api.Landmarks.Details.{DetailRow}
use landmark_api.Landmarks.Responses.{process_landmark_list, process_landmark}
use landmark_api.Landmarks.Plans.{free_plan_hides}
use landmark_api.Landmarks.Handlers.{
  Cache, Json, Payload, Store, OnEmpty, from_cache, get_landmark, fetch_landmark, list_by, list_key,
  answer_list, keep_and_respond, list_query, get_cache_key, details_of,
}
use landmark_api.Landmarks.Sharing.{
  HidesInfo, CacheLaws, IsSafe, Outcome, refused-Outcome, written-Outcome, keep-Outcome,
  hit-Outcome,
}

module _ {LS DS C : Type 0} (landmarks : Table LS Landmark) (details : Table DS DetailRow)
    (cache : Cache C) (json : Json) (unmarshal : String → Result String StringMap)
    (fetch_weather : Float64 → Float64 → Option String)
    (column_is : String → String → Landmark → Bool) (ilike : String → String → Bool)
    (show_int : ℤ → String) (uuid_parse : String → Option Uuid) (laws : CacheLaws cache) where
  abbrev keep : String → Payload → Writer → Store LS DS C → Writer × Store LS DS C
  keep =
      keep_and_respond landmarks details cache json unmarshal fetch_weather column_is ilike show_int
        uuid_parse

  abbrev cached_answer : String → C → Writer → Option Writer
  cached_answer =
      from_cache landmarks details cache json unmarshal fetch_weather column_is ilike show_int
        uuid_parse

  abbrev pub get_one : String → Handler (Store LS DS C)
  get_one =
      get_landmark landmarks details cache json unmarshal fetch_weather column_is ilike show_int
        uuid_parse

  abbrev pub get_list : OnEmpty → List String → (Landmark → Bool) → Handler (Store LS DS C)
  get_list =
      list_by landmarks details cache json unmarshal fetch_weather column_is ilike show_int
        uuid_parse

  abbrev details_for : Store LS DS C → Uuid → SubscriptionPlan → Result Error LandmarkDetail
  details_for s =
      details_of landmarks details cache json unmarshal fetch_weather column_is ilike show_int
        uuid_parse s

  abbrev fetch : Uuid → String → Subscription → Handler (Store LS DS C)
  fetch =
      fetch_landmark landmarks details cache json unmarshal fetch_weather column_is ilike show_int
        uuid_parse

  fetch-Outcome :
      (id : Uuid) (id_text : String) (r : Request) (ctx : Context) (w : Writer) (s : Store LS DS C)
      (sub : Subscription)
      → Free b':' sub.plan_type
      → IsSafe cache json s.cached
      → Outcome cache json sub
          (fetch id (get_cache_key ("id" ∷ id_text ∷ sub.plan_type ∷ [])) sub r ctx w s)
  unfolding fetch_landmark
  fetch-Outcome id id_text r ctx w s sub plain safe =
      let refused = λ (code : ℕ) (m : String). refused-Outcome cache json sub code m w s safe in
      elim (Option-cases ctx.user) [
        | inl nobody ↦ rw (nobody, fetch_landmark) (refused _ _)
        | inr (user, known) ↦
            elim (Result-cases (landmarks.first s.landmarks (with_where (λ l. eqb l.id id)))) [
              | inr (m, e) ↦ rw (known, fetch_landmark) (rw e (refused _ _))
              | inl (none, e) ↦ rw (known, fetch_landmark) (rw e (refused _ _))
              | inl (some l, e) ↦
                  rw (known, fetch_landmark)
                    (rw e (
                      keep-Outcome landmarks details cache json unmarshal fetch_weather column_is
                        ilike show_int uuid_parse laws sub ("id" ∷ id_text ∷ []) _ _ w s refl plain
                        safe
                        (λ free k paid.
                          (free_plan_hides fetch_weather (details_for s) l sub
                            (parse_query_params r.query) k free paid).0)))
            ]
      ]

  pub get_one-Outcome :
      (id_text : String) (r : Request) (ctx : Context) (w : Writer) (s : Store LS DS C)
      (sub : Subscription)
      → ctx.subscription ≡ some sub
      → Free b':' sub.plan_type
      → IsSafe cache json s.cached
      → Outcome cache json sub (get_one id_text r ctx w s)
  unfolding get_landmark
  get_one-Outcome id_text r ctx w s sub has plain safe =
      let key = get_cache_key ("id" ∷ id_text ∷ sub.plan_type ∷ []) in
      elim (Option-cases (uuid_parse id_text)) [
        | inl e ↦ rw (e, get_landmark) (refused-Outcome cache json sub _ _ w s safe)
        | inr (id, e) ↦ elim (Option-cases (cached_answer key s.cached w)) [
          | inr (out, hit) ↦
              rw (e, get_landmark)
                (rw (has, hit)
                  (hit-Outcome landmarks details cache json unmarshal fetch_weather column_is ilike
                    show_int uuid_parse laws sub ("id" ∷ id_text ∷ []) key w out s refl safe hit))
          | inl miss ↦
              rw (e, get_landmark)
                (rw (has, miss) (fetch-Outcome id id_text r ctx w s sub plain safe))
        ]
      ]

  listing-Hides :
      (ls : List Landmark) (sub : Subscription) (p : QueryParams) (s : Store LS DS C)
      → sub.plan_type ≡ free_plan
      → All HidesInfo (map (process_landmark fetch_weather (details_for s) sub p) ls)
  listing-Hides [] sub p s free = tt
  listing-Hides (l ∷ ls) sub p s free = (
    λ k paid. (free_plan_hides fetch_weather (details_for s) l sub p k free paid).1,
    listing-Hides ls sub p s free,
  )

  abbrev key_of : List String → QueryParams → Subscription → String
  key_of parts p sub =
      list_key landmarks details cache json unmarshal fetch_weather column_is ilike show_int
        uuid_parse parts p sub.plan_type

  list_key-plan :
      (parts : List String) (p : QueryParams) (sub : Subscription)
      → (front : List String) × (get_cache_key (front ++ sub.plan_type ∷ []) ≡ key_of parts p sub)
  list_key-plan parts p sub =
      let page =
        ("limit:" +++ show_int p.limit)
        ∷ ("offset:" +++ show_int p.offset)
        ∷ ("sort:" +++ (p.sort_by +++ (":" +++ p.sort_order)))
        ∷ [] in
      (parts ++ page, ap get_cache_key (append_assoc parts page (sub.plan_type ∷ [])))

  -- An answer that is kept in the cache.
  kept-Outcome :
      (parts : List String) (ls : List Landmark) (sub : Subscription) (p : QueryParams) (total : ℕ)
      (w : Writer) (s : Store LS DS C)
      → Free b':' sub.plan_type
      → IsSafe cache json s.cached
      → Outcome cache json sub (
          keep
            (key_of parts p sub)
            (Payload.listing (process_landmark_list fetch_weather (details_for s) ls sub p total))
            w
            s)
  unfolding process_landmark_list
  kept-Outcome parts ls sub p total w s plain safe =
      let (front, made) = list_key-plan parts p sub in
      keep-Outcome landmarks details cache json unmarshal fetch_weather column_is ilike show_int
        uuid_parse laws sub front _ _ w s made plain safe (λ free. listing-Hides ls sub p s free)

  answer-Outcome :
      (on_empty : OnEmpty) (parts : List String) (ls : List Landmark) (sub : Subscription)
      (p : QueryParams) (w : Writer) (s : Store LS DS C)
      → Free b':' sub.plan_type
      → IsSafe cache json s.cached
      → Outcome cache json sub (
          answer_list landmarks details cache json unmarshal fetch_weather column_is ilike show_int
            uuid_parse on_empty
            (key_of parts p sub)
            ls
            sub
            p
            w
            s)
  unfolding answer_list process_landmark_list
  answer-Outcome OnEmpty.empty_kept parts [] sub p w s plain safe =
      kept-Outcome parts [] sub p 0 w s plain safe
  answer-Outcome OnEmpty.empty_kept parts (l ∷ ls) sub p w s plain safe =
      kept-Outcome parts (l ∷ ls) sub p _ w s plain safe
  answer-Outcome OnEmpty.empty_not_kept parts [] sub p w s plain safe =
      written-Outcome cache json sub _ w s safe (λ free. tt)
  answer-Outcome OnEmpty.empty_not_kept parts (l ∷ ls) sub p w s plain safe =
      kept-Outcome parts (l ∷ ls) sub p _ w s plain safe
  answer-Outcome OnEmpty.as_any parts ls sub p w s plain safe =
      kept-Outcome parts ls sub p _ w s plain safe

  pub get_list-Outcome :
      (on_empty : OnEmpty) (parts : List String) (matches : Landmark → Bool) (r : Request)
      (ctx : Context) (w : Writer) (s : Store LS DS C) (sub : Subscription)
      → ctx.subscription ≡ some sub
      → Free b':' sub.plan_type
      → IsSafe cache json s.cached
      → Outcome cache json sub (get_list on_empty parts matches r ctx w s)
  unfolding list_by
  get_list-Outcome on_empty parts matches r ctx w s sub has plain safe =
      let p = parse_query_params r.query in
      let (front, made) = list_key-plan parts p sub in
      elim (Option-cases (cached_answer (key_of parts p sub) s.cached w)) [
        | inr (out, hit) ↦
            rw (has, hit, list_by)
              (hit-Outcome landmarks details cache json unmarshal fetch_weather column_is ilike
                show_int uuid_parse laws sub front _ w out s made safe hit)
        | inl miss ↦
            elim (Result-cases (
              landmarks.find s.landmarks (
                list_query landmarks details cache json unmarshal fetch_weather column_is ilike
                  show_int uuid_parse matches p))) [
                    | inr (m, e) ↦
                        rw (has, miss, e, list_by) (refused-Outcome cache json sub _ _ w s safe)
                    | inl (ls, e) ↦
                        rw (has, miss, e, list_by)
                          (answer-Outcome on_empty parts ls sub p w s plain safe)
                  ]
      ]
