-- ===== src/Landmarks/Caching.antt =====
-- Which answers of the listings come from the cache, and whom they are for.
use landmark_api.Common.{String, ◌≡◌, ◌⊎◌, Bool, Option, none, some, Result}
use landmark_api.Common.Int.{ℤ}
use landmark_api.Models.{Uuid, Float64}
use landmark_api.Models.Landmark.{Landmark, StringMap}
use landmark_api.Database.{Table}
use landmark_api.Http.{Writer, set, write_header, write}
use landmark_api.Landmarks.Details.{DetailRow}
use landmark_api.Landmarks.Handlers.{Cache, Json}

module _ {LS DS C : Type 0} (landmarks : Table LS Landmark) (details : Table DS DetailRow)
    (cache : Cache C) (json : Json) (unmarshal : String → Result String StringMap)
    (fetch_weather : Float64 → Float64 → Option String)
    (column_is : String → String → Landmark → Bool) (ilike : String → String → Bool)
    (show_int : ℤ → String) (uuid_parse : String → Option Uuid) where
  -- The text that the cache has under the key, as it is sent, and the answer with it.
  pub record IsHit (key : String) (c : C) (w out : Writer) : Type 0 where
    pub cached : String
    pub body : String
    pub found : cache.get c key ≡ some cached
    pub readable : json.again cached ≡ some body
    pub answer :
        out
        ≡ write body
            (write_header 200 (set "Content-Type" "application/json" (set "X-Cache" "HIT" w)))

  -- The cache has nothing under the key, or a text that cannot be read.
  abbrev pub IsMiss : String → C → Type 0
  IsMiss key c =
      (cache.get c key ≡ none) ⊎ ((t : String) × (cache.get c key ≡ some t) × (json.again t ≡ none))
