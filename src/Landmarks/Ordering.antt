-- ===== src/Landmarks/Ordering.antt =====
-- What a request's query can make of the database query.
use Prim.Native.Char.{code}
use landmark_api.Common.{
  String, ◌≡◌, ◌≢◌, ◌⊎◌, true, false, none, List, [], ◌∷◌, inl, inr, arith, Bool-cases, ◌==◌,
  eq_iff, Occurs, refl, if◌then◌else◌, eqb,
}
use mathlib.Core.Path.{subst}
use landmark_api.Common.Text.{◌+++◌}
use landmark_api.Common.Int.{ℤ, pos, negsuc}
use landmark_api.Common.Maps.{lookup, lookup-insert}
use landmark_api.Landmarks.Params.{
  parse_query_params, apply_sorting, filters_of, is_reserved, get_query, atoi, allowed_sort_by,
  allowed_sort_order, or_ten, sort_of,
}

-- The texts that may stand in an ORDER BY clause.
abbrev pub safe_orders : List String
safe_orders =
    "name asc" ∷ "name desc" ∷ "city asc" ∷ "city desc" ∷ "country asc" ∷ "country desc" ∷ []

sort_by-cases :
    (s : String) → allowed_sort_by s ≡ true → (s ≡ "name") ⊎ ((s ≡ "city") ⊎ (s ≡ "country"))
sort_by-cases s h = elim (Bool-cases (s == "name")) [
  | inl e ↦ inl ((eq_iff s "name").0 e)
  | inr ne ↦ elim (Bool-cases (s == "city")) [
    | inl e ↦ inr (inl ((eq_iff s "city").0 e))
    | inr nf ↦ inr (inr ((eq_iff s "country").0 (ground (arith, ne, nf))))
  ]
]

sort_order-cases : (s : String) → allowed_sort_order s ≡ true → (s ≡ "asc") ⊎ (s ≡ "desc")
sort_order-cases s h = elim (Bool-cases (s == "asc")) [
  | inl e ↦ inl ((eq_iff s "asc").0 e)
  | inr ne ↦ inr ((eq_iff s "desc").0 (ground (arith, ne)))
]

-- An allowed pair gives the order that it names.
asked :
    (sort_by sort_order : String)
    → allowed_sort_by sort_by ≡ true
    → allowed_sort_order sort_order ≡ true
    → apply_sorting sort_by sort_order ≡ sort_by +++ (" " +++ sort_order)
unfolding apply_sorting
asked sort_by sort_order by order = ground arith

named-safe_orders :
    (s t : String)
    → (s ≡ "name") ⊎ ((s ≡ "city") ⊎ (s ≡ "country"))
    → (t ≡ "asc") ⊎ (t ≡ "desc")
    → Occurs (s +++ (" " +++ t)) safe_orders
named-safe_orders s t (inl e) (inl f) = rw (e, f) (inl refl)
named-safe_orders s t (inl e) (inr f) = rw (e, f) (inr (inl refl))
named-safe_orders s t (inr (inl e)) (inl f) = rw (e, f) (inr (inr (inl refl)))
named-safe_orders s t (inr (inl e)) (inr f) = rw (e, f) (inr (inr (inr (inl refl))))
named-safe_orders s t (inr (inr e)) (inl f) = rw (e, f) (inr (inr (inr (inr (inl refl)))))
named-safe_orders s t (inr (inr e)) (inr f) = rw (e, f) (inr (inr (inr (inr (inr (inl refl))))))

-- Whatever sort key and order a request asks for, the ORDER BY clause is one of six fixed texts,
-- so no text of the client gets into it; a key and an order that are allowed are used as asked.
pub apply_sorting-safe_orders :
    (sort_by sort_order : String)
    → Occurs (apply_sorting sort_by sort_order) safe_orders
      × (allowed_sort_by sort_by ≡ true
          → allowed_sort_order sort_order ≡ true
          → apply_sorting sort_by sort_order ≡ sort_by +++ (" " +++ sort_order))
unfolding apply_sorting
apply_sorting-safe_orders sort_by sort_order = elim (Bool-cases (allowed_sort_by sort_by)) [
  | inr bad ↦ (rw bad (inl refl), asked sort_by sort_order)
  | inl by ↦ elim (Bool-cases (allowed_sort_order sort_order)) [
    | inr bad ↦ (rw (by, bad) (inl refl), asked sort_by sort_order)
    | inl order ↦ (
      rw (by, order)
          (named-safe_orders sort_by sort_order (sort_by-cases sort_by by)
            (sort_order-cases sort_order order)),
      asked sort_by sort_order,
    )
  ]
]

filters_of-lookup :
    (k : String) (query : List (String × String))
    → lookup k (filters_of query) ≡ (if is_reserved k then none else lookup k query)
unfolding filters_of lookup
filters_of-lookup k [] = ground arith
filters_of-lookup k ((j, v) ∷ query) =
    let earlier = filters_of-lookup k query in
    let added = lookup-insert j k v (filters_of query) in
    elim (Bool-cases (j == k)) [
      | inr differ ↦ elim (Bool-cases (is_reserved j)) [
        | inl r ↦ rw (differ, r) earlier
        | inr r ↦ rw (differ, r) (rw (added, differ) earlier)
      ]
      | inl same ↦
          let e : j ≡ k = (eq_iff j k).0 same in
          elim (Bool-cases (is_reserved j)) [
            | inl r ↦
                let rk : is_reserved k ≡ true = subst (λ x. is_reserved x ≡ true) e r in
                rw (r, rk) (rw rk at earlier)
            | inr r ↦
                let rk : is_reserved k ≡ false = subst (λ x. is_reserved x ≡ false) e r in
                rw (r, rk, same) (rw (added, same) refl)
          ]
    ]

or_ten-ne-zero : (z : ℤ) → or_ten z ≢ pos 0
or_ten-ne-zero (pos n) h = ground arith
or_ten-ne-zero (negsuc n) h = ground arith

sort_of-allowed : (s : String) → allowed_sort_order (sort_of s).1 ≡ true
sort_of-allowed String.[] = refl
sort_of-allowed (String.◌∷◌ c s) = elim (Bool-cases (eqb (code c) b'-')) [
  | inl e ↦ rw e refl
  | inr e ↦ rw e refl
]

-- The limit is never 0, the order is one of the two that applySorting knows, and the filters are
-- the first values of exactly those keys of the query that are not reserved.
pub parse_query_params-filters :
    (query : List (String × String)) (k : String)
    → let p = parse_query_params query in
      (p.limit ≢ pos 0)
      × (allowed_sort_order p.sort_order ≡ true)
      × (lookup k p.filters ≡ (if is_reserved k then none else lookup k query))
unfolding parse_query_params
parse_query_params-filters query k = (
  or_ten-ne-zero (atoi (get_query "limit" query)),
  sort_of-allowed (get_query "sort" query),
  filters_of-lookup k query,
)
