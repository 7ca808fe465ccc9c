-- ===== src/Repository.antt =====
-- What the repositories of internal/repository share: how a statement's result becomes the error
-- that a method returns. `wrapping` is what a method makes of the driver's error.
use mathlib.Core.Path.{subst}
use landmark_api.Common.{
  List, ◌∷◌, ap, count-pos, count-eq-zero, ℕ, zero, suc, sym, String, Option, none, some, Result,
  ok, err, eqb, if◌then◌else◌, ◌≡◌, ◌≢◌, ◌⊎◌, inl, inr, refl, map, Bool, true, Occurs, count, arith,
}
use landmark_api.Errors.{Error}
use landmark_api.Database.{Table, TableLaws, Query}

-- First: `missing` stands for gorm.ErrRecordNotFound.
abbrev pub read :
    {Row : Type 0} → Error → (String → Error) → Result String (Option Row) → Result Error Row
read missing wrapping (ok none) = err missing
read missing wrapping (ok (some r)) = ok r
read missing wrapping (err m) = err (wrapping m)

-- Create.
abbrev pub inserted : {S : Type 0} → (String → Error) → S → Result String S → Option Error × S
inserted wrapping s (ok s') = (none, s')
inserted wrapping s (err m) = (some (wrapping m), s)

-- Updates and Delete, with the test `result.RowsAffected == 0`.
abbrev pub affected :
    {S : Type 0} → Error → (String → Error) → S → Result String (S × ℕ) → Option Error × S
affected missing wrapping s (ok (s', n)) = (if eqb n 0 then some missing else none, s')
affected missing wrapping s (err m) = (some (wrapping m), s)

-- What a successful read says of the row.
pub read-ok :
    {S Row : Type 0} (t : Table S Row) (l : TableLaws t) (missing : Error)
    (wrapping : String → Error) (s : S) (q : Query Row) (r : Row)
    → read missing wrapping (t.first s q) ≡ ok r
    → Occurs r (t.rows s) × (q.matches r ≡ true)
read-ok t l missing wrapping s q r h = ground (arith, l.first_some s q r)

module _ {S Row : Type 0} where
  -- Outcome of a method that changes the rows which satisfy `p` by `f`: it succeeds and there was a
  -- row to change, or it says that there was none, or the driver fails and nothing is written.
  abbrev pub Changes :
      Table S Row
      → (Row → Bool)
      → (Row → Row)
      → Error
      → (String → Error)
      → S
      → Option Error × S
      → Type 0
  Changes t p f missing wrapping s r =
      ((r.0 ≡ none)
        × (count p (t.rows s) ≢ 0)
        × (t.rows r.1 ≡ map (λ x. if p x then f x else x) (t.rows s)))
      ⊎ (((r.0 ≡ some missing)
            × (count p (t.rows s) ≡ 0)
            × (t.rows r.1 ≡ map (λ x. if p x then f x else x) (t.rows s)))
          ⊎ ((m : String) × (r ≡ (some (wrapping m), s))))

  pub affected-Changes :
      (t : Table S Row) (l : TableLaws t) (p : Row → Bool) (f : Row → Row) (missing : Error)
      (wrapping : String → Error) (s : S)
      → Changes t p f missing wrapping s (affected missing wrapping s (t.updates s p f))
  affected-Changes t l p f missing wrapping s = go (t.updates s p f) refl
    where
      go :
          (r : Result String (S × ℕ))
          → t.updates s p f ≡ r
          → Changes t p f missing wrapping s (affected missing wrapping s r)
      go (ok (s', zero)) e =
          let (rows, n) = l.updates_rows s p f s' zero e in inr (inl (refl, sym n, rows))
      go (ok (s', suc k)) e =
          let (rows, n) = l.updates_rows s p f s' (suc k) e in
          inl (ground arith, (λ none_there. omega arith), rows)
      go (err m) e = inr (inr (m, refl))

-- A read whose condition one stored row alone meets returns that row, unless the driver fails.
pub first-only :
    {S Row : Type 0} (t : Table S Row) (l : TableLaws t) (s : S) (q : Query Row) (u : Row)
    (old : List Row) (o : Option Row)
    → t.rows s ≡ u ∷ old
    → count q.matches old ≡ 0
    → q.matches u ≡ true
    → t.first s q ≡ ok o
    → o ≡ some u
first-only t l s q u old none rows others hit e =
    absurd (ground (arith, rw rows at (l.first_none s q e)))
first-only t l s q u old (some r) rows others hit e =
    let (m, h) = l.first_some s q r e in
    elim (subst (λ xs. Occurs r xs) rows m) [
      | inl same ↦ ap some (sym same)
      | inr k ↦ absurd (ground (arith, h, count-eq-zero q.matches old r others k))
    ]

-- A read whose condition a stored row meets finds a row, unless the driver fails.
pub first-some :
    {S Row : Type 0} (t : Table S Row) (l : TableLaws t) (s : S) (q : Query Row) (u : Row)
    (o : Option Row)
    → Occurs u (t.rows s)
    → q.matches u ≡ true
    → t.first s q ≡ ok o
    → (r : Row) × (o ≡ some r)
first-some t l s q u none m hit e =
    absurd (omega (arith, l.first_none s q e, count-pos q.matches (t.rows s) u m hit))
first-some t l s q u (some r) m hit e = (r, refl)
