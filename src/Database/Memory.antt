-- ===== src/Database/Memory.antt =====
-- A table in memory, a list of rows: it shows that the laws of `Database` can be met, and it runs
-- the tests. The newest row stands first; the order of a query is not looked at.
use landmark_api.Common.{
  ◌≡◌, refl, Bool, true, false, none, some, List, [], ◌∷◌, map, if◌then◌else◌, inl, inr, Result,
  String, ok, err, filter, find, count, All, Occurs, arith,
}
use mathlib.Core.Path.{subst}
use landmark_api.Database.{Table, TableLaws}

module _ {Row : Type 0} where
  find_some :
      (p : Row → Bool) (s : List Row) (r : Row) → find p s ≡ some r → Occurs r s × (p r ≡ true)
  find_some p [] r h = cc
  find_some p (x ∷ s) r h = ground (arith, find_some p s r)

  find_none : (p : Row → Bool) (s : List Row) → find p s ≡ none → count p s ≡ 0
  find_none p [] h = refl
  find_none p (x ∷ s) h = ground (arith, find_none p s)

  All-weaken :
      (P : Row → Bool) (s t : List Row)
      → ((r : Row) → Occurs r s → Occurs r t)
      → All (λ r. Occurs r t × (P r ≡ true)) (filter P s)
  All-weaken P [] t h = tt
  All-weaken P (x ∷ s) t h =
      elim (P x)
          as (λ b.
            P x ≡ b
            → All (λ r. Occurs r t × (P r ≡ true)) (if b then x ∷ filter P s else filter P s)) [
              | true ↦ λ e. ((h x (inl refl), e), All-weaken P s t (λ r m. h r (inr m)))
              | false ↦ λ e. All-weaken P s t (λ r m. h r (inr m))
            ]
        refl

  -- What the rows of a successful read satisfy.
  abbrev Each : (List Row → Type 0) → Result String (List Row) → Type 0
  Each P (ok rs) = P rs
  Each P (err e) = Unit

module _ {Row : Type 0} (same_key : Row → Row → Bool) where
  abbrev pub table : Table (List Row) Row
  table = record {
    rows = λ s. s;
    first = λ s q. ok (find q.matches s);
    find = λ s q. ok (filter q.matches s);
    total = λ s q. ok (count q.matches s);
    create = λ s r. ok (r ∷ s);
    updates = λ s p f. ok (map (λ r. if p r then f r else r) s, count p s);
    delete = λ s p. ok (filter (λ r. if p r then false else true) s, count p s);
    same_key = same_key;
    save = λ s r. ok (map (λ x. if same_key r x then r else x) s);
    handle_rows = λ s. 0;
  }

  pub laws : TableLaws table
  laws = record {
    first_some = λ s q r h. find_some q.matches s r (ground arith);
    first_none = λ s q h. find_none q.matches s (ground arith);
    find_rows = λ s q rs h.
        subst (Each (All (λ r. Occurs r s × (q.matches r ≡ true)))) h
          (All-weaken q.matches s s (λ r m. m));
    create_rows = λ s r s' h. ground arith;
    updates_rows = λ s p f s' n h. (ground arith, ground arith);
    delete_rows = λ s p s' n h. (ground arith, ground arith);
    save_rows = λ s r s' h k. ground arith;
    handle_rows_zero = λ s. refl;
  }
