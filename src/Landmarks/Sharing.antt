-- ===== src/Landmarks/Sharing.antt =====
-- The cache that the clients of all plans share.
pub mod Requests
pub mod Runs
use landmark_api.Common.{
  ℕ, String, ◌≡◌, ◌⊎◌, refl, sym, ap, ◌∙◌, Bool, true, Option, none, some, List, [], ◌∷◌, ◌++◌,
  Result, inl, inr, arith, All, Option-cases,
}
use landmark_api.Common.Int.{ℤ}
use landmark_api.Common.Text.{Free}
use landmark_api.Models.{Uuid, Float64, Subscription, free_plan}
use landmark_api.Models.Landmark.{Landmark, StringMap}
use landmark_api.Database.{Table}
use landmark_api.Http.{Writer, set, write_header, write}
use landmark_api.Http.Responses.{respond_with_json, respond_with_error}
use landmark_api.Landmarks.Details.{DetailRow}
use landmark_api.Landmarks.Responses.{Info}
use landmark_api.Landmarks.Plans.{paid_fields, is_one_of, shown}
use landmark_api.Landmarks.Keys.{get_cache_key-plan}
use landmark_api.Landmarks.Handlers.{
  Cache, Json, Payload, Store, from_cache, keep_and_respond, get_cache_key,
}

-- No paid field stands in the entry of an answer, nor in a payload.
abbrev pub HidesInfo : Option Info → Type 0
HidesInfo i = (k : String) → is_one_of k paid_fields ≡ true → shown k i ≡ none

abbrev pub Hides : Payload → Type 0
Hides (Payload.info i) = HidesInfo i
Hides (Payload.listing l) = All HidesInfo l.data_of
Hides (Payload.message m) = Unit

-- What Redis promises of SET: a key that has a value has that of the call, or the one it had.
pub record CacheLaws {C : Type 0} (cache : Cache C) : Type 0 where
  pub get_set :
      (c : C) (k v j t : String)
      → cache.get (cache.set c k v) j ≡ some t
      → ((j ≡ k) × (v ≡ t)) ⊎ (cache.get c j ≡ some t)

pub no_colon : Free b':' free_plan
no_colon = ground arith

module _ {C : Type 0} (cache : Cache C) (json : Json) where
  -- Whatever is found under a key of the free plan was made from a payload without paid fields.
  abbrev pub IsSafe : C → Type 0
  IsSafe c =
      (parts : List String) (t : String)
      → cache.get c (get_cache_key (parts ++ free_plan ∷ [])) ≡ some t
      → (p : Payload) × (json.marshal p ≡ some t) × Hides p

  -- An answer that is written from a payload without paid fields, or that the cache had of one.
  abbrev pub IsAnswer : Writer → Type 0
  IsAnswer out =
      ((code : ℕ) × (p : Payload) × (v : Writer) × Hides p
        × (out ≡ respond_with_json json.marshal code p v))
      ⊎ ((p : Payload) × (t : String) × (body : String) × (v : Writer) × Hides p
          × (json.marshal p ≡ some t)
          × (json.again t ≡ some body)
          × (out ≡ write body (write_header 200 v)))

module _ {LS DS C : Type 0} (cache : Cache C) (json : Json) where
  -- What a handler leaves behind and answers, for the subscription of a request.
  abbrev pub Outcome : Subscription → Writer × Store LS DS C → Type 0
  Outcome sub o =
      IsSafe cache json o.1.cached × (sub.plan_type ≡ free_plan → IsAnswer cache json o.0)

  pub refused-Outcome :
      (sub : Subscription) (code : ℕ) (m : String) (w : Writer) (s : Store LS DS C)
      → IsSafe cache json s.cached
      → Outcome sub (respond_with_error json.marshal Payload.message code m w, s)
  unfolding respond_with_error
  refused-Outcome sub code m w s safe = (safe, λ free. inl (code, Payload.message m, w, tt, refl))

  pub written-Outcome :
      (sub : Subscription) (p : Payload) (w : Writer) (s : Store LS DS C)
      → IsSafe cache json s.cached
      → (sub.plan_type ≡ free_plan → Hides p)
      → Outcome sub (respond_with_json json.marshal 200 p w, s)
  written-Outcome sub p w s safe hides = (safe, λ free. inl (200, p, w, hides free, refl))

module _ {LS DS C : Type 0} (landmarks : Table LS Landmark) (details : Table DS DetailRow)
    (cache : Cache C) (json : Json) (unmarshal : String → Result String StringMap)
    (fetch_weather : Float64 → Float64 → Option String)
    (column_is : String → String → Landmark → Bool) (ilike : String → String → Bool)
    (show_int : ℤ → String) (uuid_parse : String → Option Uuid) (laws : CacheLaws cache) where
  abbrev keep : String → Payload → Writer → Store LS DS C → Writer × Store LS DS C
  keep =
      keep_and_respond landmarks details cache json unmarshal fetch_weather column_is ilike show_int
        uuid_parse

  abbrev cached_answer : String → C → Writer → Option Writer
  cached_answer =
      from_cache landmarks details cache json unmarshal fetch_weather column_is ilike show_int
        uuid_parse

  keep-IsSafe :
      (key : String) (p : Payload) (w : Writer) (s : Store LS DS C)
      → IsSafe cache json s.cached
      → ((parts : List String) → get_cache_key (parts ++ free_plan ∷ []) ≡ key → Hides p)
      → IsSafe cache json (keep key p w s).1.cached
  unfolding keep_and_respond
  keep-IsSafe key p w s safe hides parts t h = elim (Option-cases (json.marshal p)) [
    | inl e ↦ safe parts t (rw e at h)
    | inr (v, e) ↦ elim (laws.get_set s.cached key v _ t (rw e at h)) [
      | inl (same, written) ↦ (p, e ∙ ap some written, hides parts same)
      | inr old ↦ safe parts t old
    ]
  ]

  pub keep-Outcome :
      (sub : Subscription) (parts : List String) (key : String) (p : Payload) (w : Writer)
      (s : Store LS DS C)
      → get_cache_key (parts ++ sub.plan_type ∷ []) ≡ key
      → Free b':' sub.plan_type
      → IsSafe cache json s.cached
      → (sub.plan_type ≡ free_plan → Hides p)
      → Outcome cache json sub (keep key p w s)
  unfolding keep_and_respond
  keep-Outcome sub parts key p w s made plain safe hides = (
    keep-IsSafe key p w s safe (λ parts' e. hides (
        sym
          (get_cache_key-plan parts' parts free_plan sub.plan_type no_colon plain (e ∙ sym made)))),
    λ free. inl (200, p, set "X-Cache" "MISS" w, hides free, refl),
  )

  pub hit-Outcome :
      (sub : Subscription) (parts : List String) (key : String) (w out : Writer) (s : Store LS DS C)
      → get_cache_key (parts ++ sub.plan_type ∷ []) ≡ key
      → IsSafe cache json s.cached
      → cached_answer key s.cached w ≡ some out
      → Outcome cache json sub (out, s)
  unfolding from_cache
  hit-Outcome sub parts key w out s made safe h = (
    safe,
    λ free. elim (Option-cases (cache.get s.cached key)) [
      | inl e ↦ absurd (ground (arith, e, h))
      | inr (t, e) ↦ elim (Option-cases (json.again t)) [
        | inl f ↦ absurd (ground (arith, e, f, h))
        | inr (body, f) ↦
            let at_free : get_cache_key (parts ++ free_plan ∷ []) ≡ key =
              ap (λ plan. get_cache_key (parts ++ plan ∷ [])) (sym free) ∙ made in
            let (p, from, hides) = safe parts t (ap (cache.get s.cached) at_free ∙ e) in
            inr (
              p,
              t,
              body,
              set "Content-Type" "application/json" (set "X-Cache" "HIT" w),
              hides,
              from,
              f,
              ground (arith, e, f, h),
            )
      ]
    ],
  )
