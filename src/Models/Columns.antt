-- ===== src/Models/Columns.antt =====
-- internal/models/custom_types.go: the type JSON of the columns that hold a map of texts.
use landmark_api.Common.{String, [], ◌∷◌, Result, ok, err}
use landmark_api.Models.Landmark.{StringMap}

-- driver.Value, as the two methods tell its values apart.
pub data DbValue : Type 0 where
  null : DbValue
  bytes : String → DbValue
  other : DbValue

-- `unmarshal` is json.Unmarshal into a map of texts.
unfoldable pub scan : (String → Result String StringMap) → DbValue → Result String StringMap
scan unmarshal null = ok []
scan unmarshal (bytes b) = unmarshal b
scan unmarshal other = err "type assertion to []byte failed"

unfoldable pub value : (StringMap → Result String String) → StringMap → Result String DbValue
value marshal [] = ok null
value marshal ((k, v) ∷ j) = elim (marshal ((k, v) ∷ j)) [ ok b ↦ ok (bytes b) | err m ↦ err m ]
