-- ===== src/Http/Responses.antt =====
-- respondWithJSON and respondWithError of internal/api/handlers/landmark_handler.go, which the other
-- handlers of the package use too, and json.NewEncoder(w).Encode. `P` is what is written as JSON,
-- and `marshal` is encoding/json's Marshal of it, `none` on an error.
use landmark_api.Common.{ℕ, String, Option, none, some}
use landmark_api.Common.Text.{◌+++◌}
use landmark_api.Http.{Writer, set, write_header, write}

abbrev or_empty : Option String → String
or_empty none = ""
or_empty (some t) = t

module _ {P : Type 0} (marshal : P → Option String) where
  unfoldable pub respond_with_json : ℕ → P → Writer → Writer
  respond_with_json code payload w =
      write (or_empty (marshal payload))
        (write_header code (set "Content-Type" "application/json" w))

  -- `message` is {"error": message}.
  unfoldable pub respond_with_error : (String → P) → ℕ → String → Writer → Writer
  unfolding respond_with_json
  respond_with_error message code m w = respond_with_json code (message m) w

  -- json.NewEncoder(w).Encode: the text with a newline, nothing on an error.
  unfoldable pub encode : P → Writer → Writer
  encode payload w = elim (marshal payload) [ none ↦ w | some t ↦ write (t +++ "\n") w ]
