-- ===== src/Common/Unique.antt =====
-- Lists in which no element stands twice.
use Prim.Native.Nat.{ℕ, zero, suc}
use mathlib.Core.Logic.{◌⊎◌, inl, inr}
use mathlib.Core.List.{List, [], ◌∷◌, ◌++◌}
use landmark_api.Common.Lists.{Occurs, take}

module _ {A : Type 0} where
  abbrev pub Unique : List A → Type 0
  Unique [] = Unit
  Unique (x ∷ xs) = (¬ (Occurs x xs)) × Unique xs

  pub Occurs-take : (n : ℕ) (xs : List A) (x : A) → Occurs x (take n xs) → Occurs x xs
  Occurs-take zero xs x m = absurd m
  Occurs-take (suc n) [] x m = absurd m
  Occurs-take (suc n) (y ∷ xs) x (inl e) = inl e
  Occurs-take (suc n) (y ∷ xs) x (inr m) = inr (Occurs-take n xs x m)

  pub Unique-take : (n : ℕ) (xs : List A) → Unique xs → Unique (take n xs)
  Unique-take zero xs u = tt
  Unique-take (suc n) [] u = tt
  Unique-take (suc n) (x ∷ xs) (new, u) = (λ m. new (Occurs-take n xs x m), Unique-take n xs u)

  pub Occurs-append : (xs ys : List A) (x : A) → Occurs x (xs ++ ys) → Occurs x xs ⊎ Occurs x ys
  Occurs-append [] ys x m = inr m
  Occurs-append (y ∷ xs) ys x (inl e) = inl (inl e)
  Occurs-append (y ∷ xs) ys x (inr m) = elim (Occurs-append xs ys x m) [
    | inl k ↦ inl (inr k)
    | inr k ↦ inr k
  ]
