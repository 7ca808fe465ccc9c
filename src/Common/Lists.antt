-- ===== src/Common/Lists.antt =====
-- Lists measured, searched and cut with native numbers and Boolean tests.
use Prim.Native.Nat.{ℕ, zero, suc, ◌+◌, ◌≤◌}
use mathlib.Core.Path.{◌≡◌, ap, refl, sym, ◌∙◌}
use mathlib.Core.Logic.{◌⊎◌, inl, inr}
use mathlib.Core.Bool.{Bool, true, false}
use mathlib.Core.Option.{Option, none, some}
use mathlib.Core.List.{List, [], ◌∷◌, ◌++◌, map}
use native.Mathlib.Omega.{arith}
use landmark_api.Common.Tests.{if◌then◌else◌, leb}

module _ {ℓ} {A : Type ℓ} where
  abbrev pub length : List A → ℕ
  length [] = 0
  length (x ∷ xs) = suc (length xs)

  abbrev pub take : ℕ → List A → List A
  take zero xs = []
  take (suc n) [] = []
  take (suc n) (x ∷ xs) = x ∷ take n xs

  abbrev pub drop : ℕ → List A → List A
  drop zero xs = xs
  drop (suc n) [] = []
  drop (suc n) (x ∷ xs) = drop n xs

  abbrev pub filter : (A → Bool) → List A → List A
  filter p [] = []
  filter p (x ∷ xs) = let rest = filter p xs in if p x then x ∷ rest else rest

  abbrev pub count : (A → Bool) → List A → ℕ
  count p [] = 0
  count p (x ∷ xs) = (if p x then 1 else 0) + count p xs

  abbrev pub any : (A → Bool) → List A → Bool
  any p [] = false
  any p (x ∷ xs) = if p x then true else any p xs

  abbrev pub find : (A → Bool) → List A → Option A
  find p [] = none
  find p (x ∷ xs) = if p x then some x else find p xs

  abbrev pub replicate : ℕ → A → List A
  replicate zero x = []
  replicate (suc n) x = x ∷ replicate n x

  pub length-replicate : (n : ℕ) (x : A) → length (replicate n x) ≡ n
  length-replicate zero x = refl
  length-replicate (suc n) x = omega (arith, length-replicate n x)

  pub length-append : (xs ys : List A) → length (xs ++ ys) ≡ length xs + length ys
  length-append [] ys = omega arith
  length-append (x ∷ xs) ys = omega (arith, length-append xs ys)

  pub length-take-le : (n : ℕ) (xs : List A) → length (take n xs) ≤ n
  length-take-le zero xs = omega arith
  length-take-le (suc n) [] = omega arith
  length-take-le (suc n) (x ∷ xs) = omega (arith, length-take-le n xs)

  pub length-take :
      (n : ℕ) (xs : List A) → length (take n xs) ≡ (if leb n (length xs) then n else length xs)
  length-take zero xs = ground arith
  length-take (suc n) [] = ground arith
  length-take (suc n) (x ∷ xs) = ground (arith, length-take n xs)

  pub take-nil : (n : ℕ) → take n [] ≡ []
  take-nil zero = refl
  take-nil (suc n) = refl

  -- A prefix is cut in two.
  pub take-add : (k n : ℕ) (xs : List A) → take (k + n) xs ≡ take k xs ++ take n (drop k xs)
  take-add zero n xs = let none_added : 0 + n ≡ n = omega arith in ap (λ m. take m xs) none_added
  take-add (suc k) n [] = take-nil (suc k + n) ∙ sym (take-nil n)
  take-add (suc k) n (x ∷ xs) =
      let shift : suc k + n ≡ suc (k + n) = omega arith in
      ap (λ m. take m (x ∷ xs)) shift ∙ ap (λ r. x ∷ r) (take-add k n xs)

  pub take-all : (n : ℕ) (xs : List A) → length xs ≤ n → take n xs ≡ xs
  take-all zero [] h = refl
  take-all zero (x ∷ xs) h = absurd (omega arith)
  take-all (suc n) [] h = refl
  take-all (suc n) (x ∷ xs) h = ap (λ r. x ∷ r) (take-all n xs (omega arith))

  pub count-le :
      (p q : A → Bool)
      → ((x : A) → p x ≡ true → q x ≡ true)
      → (xs : List A) → count p xs ≤ count q xs
  count-le p q h [] = omega arith
  count-le p q h (x ∷ xs) = ground (arith, h x, count-le p q h xs)

  pub count-append : (p : A → Bool) (xs ys : List A) → count p (xs ++ ys) ≡ count p xs + count p ys
  count-append p [] ys = omega arith
  count-append p (x ∷ xs) ys = omega (arith, count-append p xs ys)

module _ {ℓ κ} {A : Type ℓ} (P : A → Type κ) where
  abbrev pub All : List A → Type κ
  All [] = Unit
  All (x ∷ xs) = P x × All xs

  pub All-append : (xs ys : List A) → All xs → All ys → All (xs ++ ys)
  All-append [] ys h k = k
  All-append (x ∷ xs) ys (p, h) k = (p, All-append xs ys h k)

  pub All-take : (n : ℕ) (xs : List A) → All xs → All (take n xs)
  All-take zero xs h = tt
  All-take (suc n) [] h = tt
  All-take (suc n) (x ∷ xs) (p, h) = (p, All-take n xs h)

  pub All-filter : (p : A → Bool) (xs : List A) → All xs → All (filter p xs)
  All-filter p [] h = tt
  All-filter p (x ∷ xs) (k, h) =
      elim (p x) as (λ b. All (if b then x ∷ filter p xs else filter p xs)) [
        | true ↦ (k, All-filter p xs h)
        | false ↦ All-filter p xs h
      ]

module _ {A : Type 0} where
  -- `x` stands in the list.
  abbrev pub Occurs : A → List A → Type 0
  Occurs x [] = ⊥
  Occurs x (y ∷ ys) = (y ≡ x) ⊎ Occurs x ys

  pub All-at : (P : A → Type 0) (xs : List A) (x : A) → All P xs → Occurs x xs → P x
  All-at P [] x h m = absurd m
  All-at P (y ∷ ys) x (p, h) m = elim m [ inl e ↦ rw e at p | inr k ↦ All-at P ys x h k ]

  pub filter-All : (p : A → Bool) (xs : List A) → All (λ x. p x ≡ true) (filter p xs)
  filter-All p [] = tt
  filter-All p (x ∷ xs) =
      elim (p x)
          as (λ b. p x ≡ b → All (λ y. p y ≡ true) (if b then x ∷ filter p xs else filter p xs)) [
            | true ↦ λ e. (e, filter-All p xs)
            | false ↦ λ e. filter-All p xs
          ]
        refl

  pub append-right : (xs ys : List A) (x : A) → Occurs x ys → Occurs x (xs ++ ys)
  append-right [] ys x m = m
  append-right (y ∷ xs) ys x m = inr (append-right xs ys x m)

  pub All-of : (P : A → Type 0) (xs : List A) → ((x : A) → Occurs x xs → P x) → All P xs
  All-of P [] h = tt
  All-of P (x ∷ xs) h = (h x (inl refl), All-of P xs (λ y m. h y (inr m)))

  -- What a count of zero says of each element.
  pub count-eq-zero :
      (p : A → Bool) (xs : List A) (x : A) → count p xs ≡ 0 → Occurs x xs → p x ≡ false
  count-eq-zero p [] x h m = absurd m
  count-eq-zero p (y ∷ ys) x h m = elim m [
    | inl e ↦ rw (← e) (ground arith)
    | inr k ↦ count-eq-zero p ys x (omega arith) k
  ]

  pub count-pos : (p : A → Bool) (xs : List A) (x : A) → Occurs x xs → p x ≡ true → 1 ≤ count p xs
  count-pos p [] x m h = absurd m
  count-pos p (y ∷ ys) x m h = elim m [
    | inl e ↦ ground arith
    | inr k ↦ omega (arith, count-pos p ys x k h)
  ]

module _ {A B : Type 0} where
  pub Occurs-map : (f : A → B) (xs : List A) (x : A) → Occurs x xs → Occurs (f x) (map f xs)
  Occurs-map f [] x m = absurd m
  Occurs-map f (y ∷ ys) x (inl e) = inl (ap f e)
  Occurs-map f (y ∷ ys) x (inr m) = inr (Occurs-map f ys x m)

  pub count-map-le :
      (p : B → Bool) (q : A → Bool) (g : A → B)
      → ((x : A) → p (g x) ≡ true → q x ≡ true)
      → (xs : List A) → count p (map g xs) ≤ count q xs
  count-map-le p q g h [] = omega arith
  count-map-le p q g h (x ∷ xs) = ground (arith, h x, count-map-le p q g h xs)

  pub of-map :
      (f : A → B) (xs : List A) (y : B) → Occurs y (map f xs) → (x : A) × Occurs x xs × (f x ≡ y)
  of-map f [] y m = absurd m
  of-map f (x ∷ xs) y (inl e) = (x, inl refl, e)
  of-map f (x ∷ xs) y (inr m) = let (z, k, e) = of-map f xs y m in (z, inr k, e)
