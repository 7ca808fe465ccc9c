-- ===== src/Models/Landmark/Hooks.antt =====
-- The hook BeforeSave of internal/models/landmark.go.
use landmark_api.Common.{◌≡◌, refl, List, [], ◌∷◌, arith, Bool-cases, inl, inr, ◌==◌}
use landmark_api.Models.{Uuid}
use landmark_api.Models.Landmark.{Landmark, LandmarkImage, before_save, get_main_image}

module _ (fresh again : Uuid) where
  stable :
      (l : Landmark) (is : List LandmarkImage)
      → l.images ≡ is
      → (before_save again (before_save fresh l) ≡ before_save fresh l)
        × (get_main_image (before_save fresh l) ≡ get_main_image l)
  unfolding before_save get_main_image
  stable l [] e = elim (Bool-cases (l.image_url == "")) [
    | inl h ↦ (ground arith, ground arith)
    | inr h ↦ (ground arith, ground arith)
  ]
  stable l (i ∷ rest) e = elim (Bool-cases (l.image_url == "")) [
    | inl h ↦ (ground arith, ground arith)
    | inr h ↦ (ground arith, ground arith)
  ]

  -- BeforeSave is idempotent, whatever id the second call would give to an image, and it does not
  -- change the main image of the landmark.
  before_save-stable :
      (l : Landmark)
      → (before_save again (before_save fresh l) ≡ before_save fresh l)
        × (get_main_image (before_save fresh l) ≡ get_main_image l)
  before_save-stable l = stable l l.images refl
