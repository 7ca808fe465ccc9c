-- ===== src/Tests/Suggestions.antt =====
-- A search for suggestions at concrete values.
use mathlib.Core.Path.{subst}
use landmark_api.Common.{
  String, ◌≡◌, refl, Bool, true, false, Option, none, some, List, [], ◌∷◌, map, filter, Result, ok,
  inl, inr, if◌then◌else◌, ◌==◌, All, All-of, Occurs, Bool-cases, arith,
}
use landmark_api.Common.Text.{◌+++◌}
use landmark_api.Common.Unique.{Unique}
use landmark_api.Common.Words.{trim_space}
use landmark_api.Models.Landmark.{Landmark}
use landmark_api.Suggestions.{
  shipped_config, add_unseen, get_column_for_search_type, search_landmarks,
}
use landmark_api.Suggestions.Answers.{
  DistinctLaws, IsAnswer, search_landmarks-IsAnswer, add_unseen-Unique, add_unseen-old,
  add_unseen-all,
}
use landmark_api.Tests.Fixtures.{bridge}

selected-old :
    (p : Landmark → Bool) (f : Landmark → String) (s : List Landmark) (v : String)
    → Occurs v (map f (filter p s))
    → (l : Landmark) × Occurs l s × (p l ≡ true) × (f l ≡ v)
selected-old p f [] v m = absurd m
selected-old p f (x ∷ s) v m = elim (Bool-cases (p x)) [
  | inl e ↦
      let k : Occurs v (f x ∷ map f (filter p s)) = rw e at m in
      elim k [
        | inl same ↦ (x, inl refl, e, same)
        | inr k ↦ let (l, i, h, g) = selected-old p f s v k in (l, inr i, h, g)
      ]
  | inr e ↦ let (l, i, h, g) = selected-old p f s v (rw e at m) in (l, inr i, h, g)
]

selected-all :
    (p : Landmark → Bool) (f : Landmark → String) (s : List Landmark) (l : Landmark)
    → Occurs l s
    → p l ≡ true
    → Occurs (f l) (map f (filter p s))
selected-all p f [] l m h = absurd m
selected-all p f (x ∷ s) l m h = elim (Bool-cases (p x)) [
  | inl e ↦ rw e (elim m [ inl same ↦ inl (rw same refl) | inr k ↦ inr (selected-all p f s l k h) ])
  | inr e ↦ rw e (elim m [
    | inl same ↦ absurd (ground (arith, rw same at e))
    | inr k ↦ selected-all p f s l k h
  ])
]

abbrev distinct :
    List Landmark → (Landmark → Bool) → (Landmark → String) → Result String (List String)
distinct s p f = ok (add_unseen [] (map f (filter p s)))

-- What a successful read satisfies.
abbrev Each : (List String → Type 0) → Result String (List String) → Type 0
Each P (ok vs) = P vs
Each P (Result.err m) = Unit

distinct_laws : DistinctLaws (λ s. s) distinct
distinct_laws = record {
  distinct_unique = λ s p f vs e. subst (Each Unique) e (add_unseen-Unique [] (map f (filter p s)));
  distinct_sound = λ s p f vs e.
      subst (Each (All (λ v. (l : Landmark) × Occurs l s × (p l ≡ true) × (f l ≡ v)))) e (
        All-of _ (add_unseen [] (map f (filter p s)))
          (λ v m. selected-old p f s v (add_unseen-old [] (map f (filter p s)) v m)));
  distinct_complete = λ s p f vs l e m h.
      subst (Each (Occurs (f l))) e
        (add_unseen-all [] (map f (filter p s)) (f l) (selected-all p f s l m h) refl);
}

abbrev lower_like : String → String → Bool
lower_like value pattern = ("%" +++ (value +++ "%")) == pattern

-- The whole term is no city, but one of its words is.
search_landmarks-IsAnswer_example :
    IsAnswer
      (λ s. s)
      distinct
      lower_like
      (λ s. s)
      (some shipped_config)
      (get_column_for_search_type "city")
      (trim_space " Mostar by night ")
      (bridge ∷ bridge ∷ [])
      ("Mostar" ∷ [])
unfolding trim_space search_landmarks landmark_api.Common.Words.fields
search_landmarks-IsAnswer_example =
    search_landmarks-IsAnswer (λ s. s) distinct lower_like (λ s. s) distinct_laws
      (some shipped_config) "city" " Mostar by night " (bridge ∷ bridge ∷ []) ("Mostar" ∷ []) refl
      refl
