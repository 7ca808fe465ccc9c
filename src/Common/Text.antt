-- ===== src/Common/Text.antt =====
-- The parts of Go's package `strings` that the program calls, over the native texts.
use Prim.Native.Char.{Char, code}
use Prim.Native.String
use Prim.Native.String.{String}
use Prim.Native.Nat.{ℕ}
use mathlib.Core.Path.{◌≡◌, refl}
use mathlib.Core.Logic.{◌≢◌, inl, inr}
use mathlib.Core.Bool.{Bool}
use mathlib.Core.List.{List, [], ◌∷◌}
use native.Mathlib.Omega.{arith}
use text.Mathlib.Text.{◌==◌}
use text.Mathlib.TextLemmas.{nil-append, cons-append}
use landmark_api.Common.Tests.{eqb, if◌then◌else◌, Bool-cases}

infixr 65 ◌+++◌
abbrev pub ◌+++◌ : String → String → String
s +++ t = String.◌++◌ s t

abbrev pub is_empty : String → Bool
is_empty s = s == ""

-- Puts a character in front of the first part.
abbrev pub cons_head : Char → List String → List String
cons_head c [] = String.◌∷◌ c String.[] ∷ []
cons_head c (s ∷ parts) = String.◌∷◌ c s ∷ parts

-- strings.Split with a separator of one character: the parts between its occurrences.
unfoldable pub split : ℕ → String → List String
split sep String.[] = "" ∷ []
split sep (String.◌∷◌ c s) =
    let rest = split sep s in if eqb (code c) sep then "" ∷ rest else cons_head c rest

-- strings.Join.
unfoldable pub join : String → List String → String
join sep [] = ""
join sep (s ∷ []) = s
join sep (s ∷ t ∷ parts) = s +++ (sep +++ join sep (t ∷ parts))

-- No character of the text is `sep`.
abbrev pub Free : ℕ → String → Type 0
Free sep String.[] = Unit
Free sep (String.◌∷◌ c s) = (code c ≢ sep) × Free sep s

-- There is always a part.
pub split-cons : (sep : ℕ) (s : String) → (y : String) × (ys : List String) × (split sep s ≡ y ∷ ys)
unfolding split
split-cons sep String.[] = ("", [], refl)
split-cons sep (String.◌∷◌ c s) = elim (Bool-cases (eqb (code c) sep)) [
  | inl same ↦ ("", split sep s, rw same)
  | inr other ↦ let (y, ys, e) = split-cons sep s in (String.◌∷◌ c y, ys, rw other (rw e refl))
]

pub split-Free : (sep : ℕ) (s : String) → Free sep s → split sep s ≡ s ∷ []
unfolding split
split-Free sep String.[] h = refl
split-Free sep (String.◌∷◌ c s) (ne, h) = ground (arith, split-Free sep s h)

-- The separator ends the first part.
pub split-append :
    (sep : ℕ) (s : String) (c : Char) (t : String)
    → Free sep s
    → code c ≡ sep
    → split sep (s +++ String.◌∷◌ c t) ≡ s ∷ split sep t
unfolding split
split-append sep String.[] c t h e = rw nil-append (ground arith)
split-append sep (String.◌∷◌ d s) c t (ne, h) e =
    rw cons-append (ground (arith, split-append sep s c t h e))
