-- ===== src/Database.antt =====
-- What the program relies on of gorm and PostgreSQL, as an interface: one `Table` for each model.
-- The library is not part of the repository, so the code's definitions take a table as a parameter,
-- and the theorems name what they need of it in `TableLaws`.
pub mod Memory
use landmark_api.Common.{
  ℕ, String, ◌≡◌, ◌≢◌, Bool, true, false, Option, none, some, List, ◌∷◌, map, if◌then◌else◌, Result,
  ok, filter, count, All, Occurs,
}
use landmark_api.Common.Int.{ℤ}

-- A chain of `Where`, `Order`, `Offset` and `Limit`: the condition on a row, and the SQL text of
-- the order. `none` where the chain has no such call.
pub record Query (Row : Type 0) : Type 0 where
  pub matches : Row → Bool
  pub order : Option String
  pub offset : Option ℤ
  pub limit : Option ℤ

-- `S` is the state of the table's storage. An error is the driver's message; `ok none` of `first`
-- is gorm.ErrRecordNotFound; the number beside a new state is RowsAffected of the statement.
pub record Table (S Row : Type 0) : Type 0 where
  -- The rows that are stored and not marked as deleted. No code of the program reads it: it is the
  -- view in which the laws are stated.
  pub rows : S → List Row
  pub first : S → Query Row → Result String (Option Row)
  pub find : S → Query Row → Result String (List Row)
  pub total : S → Query Row → Result String ℕ
  pub create : S → Row → Result String S
  pub updates : S → (Row → Bool) → (Row → Row) → Result String (S × ℕ)
  pub delete : S → (Row → Bool) → Result String (S × ℕ)
  -- Whether two rows have one primary key, and Save of a row.
  pub same_key : Row → Row → Bool
  pub save : S → Row → Result String S
  -- RowsAffected as read on the shared handle `r.db`, not on a statement's own result.
  pub handle_rows : S → ℕ

abbrev pub with_where : {Row : Type 0} → (Row → Bool) → Query Row
with_where p = record { matches = p; order = none; offset = none; limit = none }

abbrev pub with_order : {Row : Type 0} → (Row → Bool) → String → Query Row
with_order p o = record { matches = p; order = some o; offset = none; limit = none }

-- Documented behaviour of the statements that succeed.
pub record TableLaws {S Row : Type 0} (t : Table S Row) : Type 0 where
  pub first_some :
      (s : S) (q : Query Row) (r : Row)
      → t.first s q ≡ ok (some r)
      → Occurs r (t.rows s) × (q.matches r ≡ true)
  pub first_none : (s : S) (q : Query Row) → t.first s q ≡ ok none → count q.matches (t.rows s) ≡ 0
  pub find_rows :
      (s : S) (q : Query Row) (rs : List Row)
      → t.find s q ≡ ok rs
      → All (λ r. Occurs r (t.rows s) × (q.matches r ≡ true)) rs
  pub create_rows : (s : S) (r : Row) (s' : S) → t.create s r ≡ ok s' → t.rows s' ≡ r ∷ t.rows s
  pub updates_rows :
      (s : S) (p : Row → Bool) (f : Row → Row) (s' : S) (n : ℕ)
      → t.updates s p f ≡ ok (s', n)
      → (t.rows s' ≡ map (λ r. if p r then f r else r) (t.rows s)) × (n ≡ count p (t.rows s))
  pub delete_rows :
      (s : S) (p : Row → Bool) (s' : S) (n : ℕ)
      → t.delete s p ≡ ok (s', n)
      → (t.rows s' ≡ filter (λ r. if p r then false else true) (t.rows s))
        × (n ≡ count p (t.rows s))
  -- Save of a row whose primary key is stored writes all its columns.
  pub save_rows :
      (s : S) (r : Row) (s' : S)
      → t.save s r ≡ ok s'
      → count (t.same_key r) (t.rows s) ≢ 0
      → t.rows s' ≡ map (λ x. if t.same_key r x then r else x) (t.rows s)
  -- A statement runs in a session of its own: its RowsAffected is not that of the shared handle.
  pub handle_rows_zero : (s : S) → t.handle_rows s ≡ 0
