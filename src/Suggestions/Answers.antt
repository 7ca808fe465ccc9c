-- ===== src/Suggestions/Answers.antt =====
-- What searchLandmarks of internal/api/handlers/suggestions_handler.go finds.
use mathlib.Core.Path.{subst}
use landmark_api.Common.{
  ℕ, String, ◌≡◌, ◌⊎◌, inl, inr, Bool, true, false, Option, none, some, List, [], ◌∷◌, Result, ok,
  ◌&&◌, eqb, ◌==◌, any, length, take, All, All-at, All-of, All-take, All-append, Occurs, arith,
  Bool-cases, Option-cases, Result-cases, eq_iff, refl, length-take, ltb,
}
use landmark_api.Common.Text.{is_empty}
use landmark_api.Common.Int.{ℤ, pos, negsuc}
use landmark_api.Common.Words.{trim_space, fields}
use landmark_api.Common.Unique.{Unique, Unique-take}
use landmark_api.Models.Landmark.{Landmark}
use landmark_api.Suggestions.{
  SuggestionsConfig, add_unseen, limit_results, exceeded, contains, column_value, values_with,
  search_words, search_landmarks, get_column_for_search_type,
}

abbrev seen_in : List String → String → Bool
seen_in seen x = any (λ s. s == x) seen

pub add_unseen-old :
    (seen rs : List String) (x : String) → Occurs x (add_unseen seen rs) → Occurs x rs
unfolding add_unseen
add_unseen-old seen [] x m = m
add_unseen-old seen (r ∷ rs) x m = elim (Bool-cases (seen_in seen r)) [
  | inl known ↦ inr (add_unseen-old seen rs x (rw known at m))
  | inr new ↦
      let k : Occurs x (r ∷ add_unseen (r ∷ seen) rs) = rw new at m in
      elim k [ inl e ↦ inl e | inr k ↦ inr (add_unseen-old (r ∷ seen) rs x k) ]
]

add_unseen-new :
    (seen rs : List String) (x : String) → Occurs x (add_unseen seen rs) → seen_in seen x ≡ false
unfolding add_unseen
add_unseen-new seen [] x m = absurd m
add_unseen-new seen (r ∷ rs) x m = elim (Bool-cases (seen_in seen r)) [
  | inl known ↦ add_unseen-new seen rs x (rw known at m)
  | inr new ↦
      let k : Occurs x (r ∷ add_unseen (r ∷ seen) rs) = rw new at m in
      elim k [ inl e ↦ rw e at new | inr k ↦ ground (arith, add_unseen-new (r ∷ seen) rs x k) ]
]

pub add_unseen-Unique : (seen rs : List String) → Unique (add_unseen seen rs)
unfolding add_unseen
add_unseen-Unique seen [] = tt
add_unseen-Unique seen (r ∷ rs) = elim (Bool-cases (seen_in seen r)) [
  | inl known ↦ rw known (add_unseen-Unique seen rs)
  | inr new ↦ rw new (
      (
        λ m. absurd (ground (arith, add_unseen-new (r ∷ seen) rs r m, eq_iff r r)),
        add_unseen-Unique (r ∷ seen) rs,
      ))
]

pub add_unseen-all :
    (seen rs : List String) (x : String)
    → Occurs x rs
    → seen_in seen x ≡ false
    → Occurs x (add_unseen seen rs)
unfolding add_unseen
add_unseen-all seen [] x m new = m
add_unseen-all seen (r ∷ rs) x m new = elim (Bool-cases (seen_in seen r)) [
  | inl known ↦
      rw known
        (elim m [ inl e ↦ absurd (ground (arith, e)) | inr k ↦ add_unseen-all seen rs x k new ])
  | inr fresh ↦ rw fresh (elim (Bool-cases (r == x)) [
    | inl same ↦ inl (ground (arith, eq_iff r x))
    | inr other ↦ elim m [
      | inl e ↦ inl e
      | inr k ↦ inr (add_unseen-all (r ∷ seen) rs x k (rw (other, new) refl))
    ]
  ])
]

-- The configured limit holds for the results.
abbrev IsWithin : Option SuggestionsConfig → List String → Type 0
IsWithin none rs = Unit
IsWithin (some config) rs = exceeded config.max_results (length rs) ≡ none

-- As many results as the limit allows.
abbrev reached : ℤ → ℕ → Bool
reached (pos max) n = ltb 0 max && eqb n max
reached (negsuc max) n = false

abbrev pub is_full : Option SuggestionsConfig → List String → Bool
is_full none rs = false
is_full (some config) rs = reached config.max_results (length rs)

exceeded-take :
    (max : ℤ) (n : ℕ) (rs : List String)
    → exceeded max (length rs) ≡ some n
    → (exceeded max (length (take n rs)) ≡ none) × (reached max (length (take n rs)) ≡ true)
exceeded-take (pos m) n rs e = (ground (arith, length-take n rs), ground (arith, length-take n rs))
exceeded-take (negsuc m) n rs e = absurd (ground (arith, e))

-- Either nothing is cut off, or the limit is reached.
limit_results-cases :
    (config : Option SuggestionsConfig) (rs : List String)
    → IsWithin config (limit_results config rs)
      × ((limit_results config rs ≡ rs)
          ⊎ ((n : ℕ) × (limit_results config rs ≡ take n rs)
              × (is_full config (limit_results config rs) ≡ true)))
unfolding limit_results
limit_results-cases none rs = (tt, inl refl)
limit_results-cases (some config) rs =
    elim (Option-cases (exceeded config.max_results (length rs))) [
      | inl e ↦ rw (e, limit_results) (e, inl refl)
      | inr (n, e) ↦
          let (fits, full) = exceeded-take config.max_results n rs e in
          rw (e, limit_results) (fits, inr (n, refl, full))
    ]

module _ {S : Type 0} (rows : S → List Landmark)
    (distinct : S → (Landmark → Bool) → (Landmark → String) → Result String (List String)) where
  -- What SELECT DISTINCT gives where it succeeds.
  pub record DistinctLaws : Type 0 where
    pub distinct_unique :
        (s : S) (p : Landmark → Bool) (f : Landmark → String) (vs : List String)
        → distinct s p f ≡ ok vs
        → Unique vs
    pub distinct_sound :
        (s : S) (p : Landmark → Bool) (f : Landmark → String) (vs : List String)
        → distinct s p f ≡ ok vs
        → All (λ v. (l : Landmark) × Occurs l (rows s) × (p l ≡ true) × (f l ≡ v)) vs
    pub distinct_complete :
        (s : S) (p : Landmark → Bool) (f : Landmark → String) (vs : List String) (l : Landmark)
        → distinct s p f ≡ ok vs
        → Occurs l (rows s)
        → p l ≡ true
        → Occurs (f l) vs

module _ {S : Type 0} (rows : S → List Landmark)
    (distinct : S → (Landmark → Bool) → (Landmark → String) → Result String (List String))
    (lower_like : String → String → Bool) (to_lower : String → String) where
  -- `v` is the column of a stored landmark, and contains the term.
  abbrev IsFound : String → String → S → String → Type 0
  IsFound column term s v =
      (l : Landmark) × Occurs l (rows s)
      × (contains distinct lower_like to_lower column term l ≡ true)
      × (column_value column l ≡ v)

  abbrev IsSuggested : String → String → S → String → Type 0
  IsSuggested column term s v =
      IsFound column term s v
      ⊎ ((word : String) × Occurs word (fields term) × IsFound column word s v)

  -- The results show the landmark, or there is nothing to show of it, or no room.
  abbrev IsShown : Option SuggestionsConfig → String → String → List String → Landmark → Type 0
  IsShown config column term rs l =
      (contains distinct lower_like to_lower column term l ≡ false)
      ⊎ (Occurs (column_value column l) rs ⊎ (is_full config rs ≡ true))

  -- What a search promises.
  pub record IsAnswer (config : Option SuggestionsConfig) (column term : String) (s : S)
      (rs : List String) : Type 0 where
    pub no_repetition : Unique rs
    pub within_limit : IsWithin config rs
    pub suggested : All (IsSuggested column term s) rs
    pub shown : All (IsShown config column term rs) (rows s)

  module _ (laws : DistinctLaws rows distinct) where
    open laws use {distinct_unique, distinct_sound, distinct_complete}

    search_words-IsFound :
        (column : String) (words : List String) (s : S)
        → All
            (λ v. (word : String) × Occurs word words × IsFound column word s v)
            (search_words distinct lower_like to_lower column words s)
    unfolding search_words
    search_words-IsFound column [] s = tt
    search_words-IsFound column (word ∷ words) s =
        let later = All-of _ (search_words distinct lower_like to_lower column words s) (λ v m.
          let (w, k, found) = All-at _ _ v (search_words-IsFound column words s) m in
          (w, inr k, found)) in
        elim (Result-cases (values_with distinct lower_like to_lower column word s)) [
          | inl (vs, e) ↦
              rw (e, search_words)
                (All-append _ vs _
                  (All-of _ vs
                    (λ v m. (word, inl refl, All-at _ vs v (distinct_sound s _ _ vs e) m)))
                  later)
          | inr (m, e) ↦ rw (e, search_words) later
        ]

    limited-IsAnswer :
        (config : Option SuggestionsConfig) (column term : String) (s : S) (rs : List String)
        → Unique rs
        → All (IsSuggested column term s) rs
        → All
            (λ l.
              (contains distinct lower_like to_lower column term l ≡ false)
              ⊎ Occurs (column_value column l) rs)
            (rows s)
        → IsAnswer config column term s (limit_results config rs)
    limited-IsAnswer config column term s rs unique sound complete =
        let (fits, cases) = limit_results-cases config rs in
        record {
          within_limit = fits;
          no_repetition = elim cases [
            | inl e ↦ rw e unique
            | inr (n, e, full) ↦ rw e (Unique-take n rs unique)
          ];
          suggested = elim cases [
            | inl e ↦ rw e sound
            | inr (n, e, full) ↦ rw e (All-take _ n rs sound)
          ];
          shown = All-of _ (rows s) (λ l m. elim (All-at _ (rows s) l complete m) [
            | inl out ↦ inl out
            | inr k ↦ inr (elim cases [ inl e ↦ inl (rw e k) | inr (n, e, full) ↦ inr full ])
          ]);
        }

    first_pass :
        (config : Option SuggestionsConfig) (column term : String) (s : S) (vs : List String)
        → values_with distinct lower_like to_lower column term s ≡ ok vs
        → IsAnswer config column term s (limit_results config vs)
    first_pass config column term s vs e =
        limited-IsAnswer config column term s vs (distinct_unique s _ _ vs e)
          (All-of _ vs (λ v m. inl (All-at _ vs v (distinct_sound s _ _ vs e) m)))
          (All-of _ (rows s) (λ l m.
            elim (Bool-cases (contains distinct lower_like to_lower column term l)) [
              | inl within ↦ inr (distinct_complete s _ _ vs l e m within)
              | inr out ↦ inl out
            ]))

    second_pass :
        (config : Option SuggestionsConfig) (column term : String) (s : S)
        → values_with distinct lower_like to_lower column term s ≡ ok []
        → IsAnswer config column term s (
            limit_results config
              (add_unseen [] (search_words distinct lower_like to_lower column (fields term) s)))
    second_pass config column term s e =
        let found = search_words distinct lower_like to_lower column (fields term) s in
        limited-IsAnswer config column term s (add_unseen [] found) (add_unseen-Unique [] found)
          (All-of _ (add_unseen [] found) (λ v m. inr (
            All-at _ found v (search_words-IsFound column (fields term) s)
              (add_unseen-old [] found v m))))
          (All-of _ (rows s) (λ l m.
            elim (Bool-cases (contains distinct lower_like to_lower column term l)) [
              | inl within ↦ absurd (distinct_complete s _ _ [] l e m within)
              | inr out ↦ inl out
            ]))

    -- A search that succeeds with a term that is not blank answers with values without repetition
    -- and within the limit, each a value of a stored landmark that contains the term or one of its
    -- words, and every landmark that contains the term is shown unless the limit is reached.
    pub search_landmarks-IsAnswer :
        (config : Option SuggestionsConfig) (search_type search_term : String) (s : S)
        (rs : List String)
        → is_empty (trim_space search_term) ≡ false
        → search_landmarks distinct lower_like to_lower config search_type search_term s ≡ ok rs
        → IsAnswer config (get_column_for_search_type search_type) (trim_space search_term) s rs
    unfolding search_landmarks
    search_landmarks-IsAnswer config search_type search_term s rs asked h =
        let column = get_column_for_search_type search_type in
        let term = trim_space search_term in
        elim (Bool-cases (is_empty column)) [
          | inl e ↦ absurd (ground (arith, e))
          | inr known ↦
              elim (Result-cases (values_with distinct lower_like to_lower column term s)) [
                | inr (m, e) ↦ absurd (ground (arith, e))
                | inl (v ∷ vs, e) ↦
                    let made : limit_results config (v ∷ vs) ≡ rs = ground (arith, e) in
                    subst (IsAnswer config column term s) made
                      (first_pass config column term s (v ∷ vs) e)
                | inl ([], e) ↦
                    let made : limit_results config (
                          add_unseen []
                            (search_words distinct lower_like to_lower column (fields term) s))
                        ≡ rs =
                      ground (arith, e) in
                    subst (IsAnswer config column term s) made (second_pass config column term s e)
              ]
        ]
