-- ===== src/Landmarks/Sharing/Runs.antt =====
-- Runs of requests that share the cache.
use landmark_api.Common.{String, ◌≡◌, Bool, Option, none, some, List, [], ◌∷◌, ◌++◌, Result, arith}
use landmark_api.Common.Int.{ℤ}
use landmark_api.Common.Text.{Free}
use landmark_api.Models.{Uuid, Float64, Subscription, free_plan}
use landmark_api.Models.Landmark.{Landmark, StringMap}
use landmark_api.Database.{Table}
use landmark_api.Http.{Request, Context, Writer}
use landmark_api.Landmarks.Details.{DetailRow}
use landmark_api.Landmarks.Handlers.{Cache, Json, Store, OnEmpty, get_cache_key}
use landmark_api.Landmarks.Sharing.{CacheLaws, no_colon, IsSafe, IsAnswer}
use landmark_api.Landmarks.Sharing.Requests.{get_one, get_list, get_one-Outcome, get_list-Outcome}

module _ {LS DS C : Type 0} (landmarks : Table LS Landmark) (details : Table DS DetailRow)
    (cache : Cache C) (json : Json) (unmarshal : String → Result String StringMap)
    (fetch_weather : Float64 → Float64 → Option String)
    (column_is : String → String → Landmark → Bool) (ilike : String → String → Bool)
    (show_int : ℤ → String) (uuid_parse : String → Option Uuid) (laws : CacheLaws cache) where
  -- Requests of clients with any plans, whose names have no colon, and in between anything that
  -- adds nothing to the cache under the keys of landmarks: writes to the tables, and entries of the
  -- cache that are deleted or expire.
  pub data Step (s u : Store LS DS C) : Type 0 where
    landmark :
        (id_text : String) (r : Request) (ctx : Context) (w : Writer) (sub : Subscription)
        → ctx.subscription ≡ some sub
        → Free b':' sub.plan_type
        → u
          ≡ (get_one landmarks details cache json unmarshal fetch_weather column_is ilike show_int
              uuid_parse laws id_text r ctx w s).1
        → Step s u
    listing :
        (on_empty : OnEmpty) (parts : List String) (matches : Landmark → Bool) (r : Request)
        (ctx : Context) (w : Writer) (sub : Subscription)
        → ctx.subscription ≡ some sub
        → Free b':' sub.plan_type
        → u
          ≡ (get_list landmarks details cache json unmarshal fetch_weather column_is ilike show_int
              uuid_parse laws on_empty parts matches r ctx w s).1
        → Step s u
    other :
        ((parts : List String) (t : String)
          → cache.get u.cached (get_cache_key parts) ≡ some t
          → cache.get s.cached (get_cache_key parts) ≡ some t)
        → Step s u

  pub data Reach (s : Store LS DS C) : Store LS DS C → Type 0 where
    here : Reach s s
    next : {t u : Store LS DS C} → Reach s t → Step t u → Reach s u

  Step-IsSafe :
      {s u : Store LS DS C} → Step s u → IsSafe cache json s.cached → IsSafe cache json u.cached
  Step-IsSafe {s} (landmark id_text r ctx w sub has plain e) safe =
      rw e
        (get_one-Outcome landmarks details cache json unmarshal fetch_weather column_is ilike
          show_int uuid_parse laws id_text r ctx w s sub has plain safe).0
  Step-IsSafe {s} (listing on_empty parts matches r ctx w sub has plain e) safe =
      rw e
        (get_list-Outcome landmarks details cache json unmarshal fetch_weather column_is ilike
          show_int uuid_parse laws on_empty parts matches r ctx w s sub has plain safe).0
  Step-IsSafe (other fewer) safe = λ parts t h. safe parts t (fewer _ t h)

  Reach-IsSafe :
      {s u : Store LS DS C} → Reach s u → IsSafe cache json s.cached → IsSafe cache json u.cached
  Reach-IsSafe here safe = safe
  Reach-IsSafe (next r st) safe = Step-IsSafe st (Reach-IsSafe r safe)

  -- Whatever requests clients of any plans have made before, and whatever has happened to the
  -- tables: a client with the free plan who asks for one landmark or for a listing is answered from
  -- a payload without paid fields, be it made for the request or found in the cache. The cache is
  -- empty at first, the names of the plans have no colon, and nothing but these requests adds to
  -- the cache under the keys of landmarks.
  pub free_plan_answers :
      {s u : Store LS DS C} (id_text : String) (on_empty : OnEmpty) (parts : List String)
      (matches : Landmark → Bool) (r : Request) (ctx : Context) (w : Writer) (sub : Subscription)
      → ((k : String) → cache.get s.cached k ≡ none)
      → Reach s u
      → ctx.subscription ≡ some sub
      → sub.plan_type ≡ free_plan
      → IsAnswer cache json
          (get_one landmarks details cache json unmarshal fetch_weather column_is ilike show_int
            uuid_parse laws id_text r ctx w u).0
        × IsAnswer cache json
            (get_list landmarks details cache json unmarshal fetch_weather column_is ilike show_int
              uuid_parse laws on_empty parts matches r ctx w u).0
  free_plan_answers {s} {u} id_text on_empty parts matches r ctx w sub fresh run has free =
      let empty : IsSafe cache json s.cached =
        λ parts t h. absurd (ground (arith, h, fresh (get_cache_key (parts ++ free_plan ∷ [])))) in
      let safe = Reach-IsSafe run empty in
      let plain : Free b':' sub.plan_type = rw free no_colon in
      (
        (get_one-Outcome landmarks details cache json unmarshal fetch_weather column_is ilike
              show_int uuid_parse laws id_text r ctx w u sub has plain safe).1
            free,
        (get_list-Outcome landmarks details cache json unmarshal fetch_weather column_is ilike
              show_int uuid_parse laws on_empty parts matches r ctx w u sub has plain safe).1
            free,
      )
