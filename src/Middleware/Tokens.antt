-- ===== src/Middleware/Tokens.antt =====
-- Reading the token of an Authorization header.
use Prim.Native.Char.{Char, code}
use landmark_api.Common.{String, ◌≡◌, refl}
use landmark_api.Common.Text.{split-append, split-Free, split-cons, Free, ◌+++◌}
use landmark_api.Middleware.{extract_token_from_header}

-- A header of a scheme, one space and a token gives the token, whatever the scheme is; a header
-- with no space gives nothing, and so does one with a second space, wherever it stands.
extract_token :
    (scheme token rest : String) (space : Char)
    → code space ≡ b' '
    → Free b' ' scheme
    → Free b' ' token
    → (extract_token_from_header (scheme +++ String.◌∷◌ space token) ≡ token)
      × (extract_token_from_header scheme ≡ "")
      × (extract_token_from_header (scheme +++ String.◌∷◌ space (token +++ String.◌∷◌ space rest))
          ≡ "")
unfolding extract_token_from_header
extract_token scheme token rest space e fs ft =
    let (y, ys, parts) = split-cons b' ' rest in
    (
      rw (split-append b' ' scheme space token fs e) (rw (split-Free b' ' token ft) refl),
      rw (split-Free b' ' scheme fs) refl,
      rw (split-append b' ' scheme space _ fs e)
          (rw (split-append b' ' token space rest ft e) (rw parts refl)),
    )
