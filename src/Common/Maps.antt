-- ===== src/Common/Maps.antt =====
-- Go maps with text keys, as association lists.
use landmark_api.Common.Tests.{if◌then◌else◌}
use Prim.Native.String.{String}
use mathlib.Core.Path.{◌≡◌, refl}
use mathlib.Core.Option.{Option, none, some}
use mathlib.Core.List.{List, [], ◌∷◌}
use native.Mathlib.Omega.{arith}
use text.Mathlib.Text.{◌==◌}
use text.Mathlib.TextEquality.{eq_iff}

abbrev pub Map : Type 0 → Type 0
Map V = List (String × V)

module _ {V : Type 0} where
  -- What delete does.
  unfoldable pub erase : String → Map V → Map V
  erase key [] = []
  erase key (entry ∷ rest) =
      let kept = erase key rest in if entry.0 == key then kept else entry ∷ kept

  -- The old entry of the key goes, the new one stands in front.
  unfoldable pub insert : String → V → Map V → Map V
  insert key value entries = (key, value) ∷ erase key entries

  unfoldable pub lookup : String → Map V → Option V
  lookup key [] = none
  lookup key (entry ∷ rest) = if entry.0 == key then some entry.1 else lookup key rest

  pub lookup-nil : (key : String) → lookup key [] ≡ none
  unfolding lookup
  lookup-nil key = refl

  pub lookup-erase :
      (other key : String) (entries : Map V)
      → lookup key (erase other entries) ≡ (if other == key then none else lookup key entries)
  unfolding lookup erase
  lookup-erase other key [] = ground arith
  lookup-erase other key (entry ∷ rest) =
      let earlier = lookup-erase other key rest in
      ground (arith, earlier, eq_iff entry.0 other, eq_iff entry.0 key, eq_iff other key)

  pub lookup-insert :
      (other key : String) (value : V) (entries : Map V)
      → lookup key (insert other value entries)
        ≡ (if other == key then some value else lookup key entries)
  unfolding lookup insert
  lookup-insert other key value entries = ground (arith, lookup-erase other key entries)
