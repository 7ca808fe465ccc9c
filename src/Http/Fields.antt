-- ===== src/Http/Fields.antt =====
-- Header maps of net/http: Set replaces the values of a key, Get gives the value or "". Both bring a
-- name to its canonical form, and the names of a request are in it: the model writes "X-Api-Key" for
-- the name that the code spells "x-api-key".
use landmark_api.Common.{String, ◌≡◌, Option, none, some, if◌then◌else◌, ◌==◌, Bool-cases, inl, inr}
use landmark_api.Common.Maps.{Map, lookup, insert, lookup-insert}

abbrev pub Headers : Type 0
Headers = Map String

abbrev or_empty : Option String → String
or_empty none = ""
or_empty (some value) = value

unfoldable pub set_header : String → String → Headers → Headers
set_header name value header = insert name value header

unfoldable pub get_header : String → Headers → String
get_header name header = or_empty (lookup name header)

pub get_header-set_header :
    (other name value : String) (header : Headers)
    → get_header name (set_header other value header)
      ≡ (if other == name then value else get_header name header)
unfolding get_header set_header
get_header-set_header other name value header =
    rw lookup-insert
      (elim (Bool-cases (other == name)) [ inl same ↦ rw same | inr differ ↦ rw differ ])
