-- ===== src/Common/Words.antt =====
-- strings.TrimSpace and strings.Fields, which cut at the white space of Unicode.
use Prim.Native.Char.{Char, code}
use Prim.Native.String.{String}
use Prim.Native.Nat.{ℕ}
use mathlib.Core.Bool.{Bool, true, ◌&&◌, ◌||◌}
use mathlib.Core.List.{List, [], ◌∷◌}
use landmark_api.Common.Tests.{eqb, leb, if◌then◌else◌}
use landmark_api.Common.Text.{is_empty, cons_head}

abbrev is_one_of : ℕ → List ℕ → Bool
is_one_of n [] = Bool.false
is_one_of n (m ∷ ms) = eqb n m || is_one_of n ms

-- unicode.IsSpace
unfoldable pub is_space : Char → Bool
is_space c =
    let n = code c in
    (leb 9 n && leb n 13)
    || ((leb 8192 n && leb n 8202)
        || is_one_of n (32 ∷ 133 ∷ 160 ∷ 5760 ∷ 8232 ∷ 8233 ∷ 8239 ∷ 8287 ∷ 12288 ∷ []))

unfoldable pub trim_left : String → String
unfolding is_space
trim_left String.[] = ""
trim_left (String.◌∷◌ c s) = let rest = trim_left s in if is_space c then rest else String.◌∷◌ c s

unfoldable pub trim_right : String → String
unfolding is_space
trim_right String.[] = ""
trim_right (String.◌∷◌ c s) =
    let rest = trim_right s in if is_space c && is_empty rest then "" else String.◌∷◌ c rest

-- strings.TrimSpace
unfoldable pub trim_space : String → String
unfolding trim_left trim_right
trim_space s = trim_right (trim_left s)

-- Whether a word ends in front of the text.
abbrev ends_word : String → Bool
unfolding is_space
ends_word String.[] = true
ends_word (String.◌∷◌ c s) = is_space c

-- strings.Fields: the parts between white space, none of them empty.
unfoldable pub fields : String → List String
unfolding is_space
fields String.[] = []
fields (String.◌∷◌ c s) =
    let rest = fields s in
    if is_space c
    then rest
    else if ends_word s
    then String.◌∷◌ c String.[] ∷ rest
    else cons_head c rest
