-- ===== src/Landmarks/Admin/Edits.antt =====
-- What an edit by an administrator changes, and what its answer shows.
use landmark_api.Common.{
  ℕ, String, ◌≡◌, ◌⊎◌, refl, Bool, true, Option, none, some, List, Result, ok, err, map, inl, inr,
  arith, if◌then◌else◌, Occurs, of-map, Option-cases, Result-cases, Bool-cases, bind-map_err,
  ok-injective, ap, ◌∙◌,
}
use mathlib.Core.Path.{subst}
use landmark_api.Calendar.{Time}
use landmark_api.Models.{Uuid, Float64}
use landmark_api.Models.Landmark.{Landmark, LandmarkDetail, StringMap}
use landmark_api.Database.{Table, TableLaws, with_where}
use landmark_api.Landmarks.Details.{DetailRow}
use landmark_api.Landmarks.Responses.{Info, merge_landmark_and_details}
use landmark_api.Landmarks.Rows.{has_id}
use landmark_api.Landmarks.Admin.{
  Edit, edited, edited_detail, of_landmark, edit_in_tx, fetch_edited, admin_edit_handler,
}

-- A row that is asked for after an update is one that has been updated.
edited-Occurs :
    {Row : Type 0} (q : Row → Bool) (f : Row → Row) (rows : List Row) (r : Row)
    → Occurs r (map (λ x. if q x then f x else x) rows)
    → q r ≡ true
    → (old : Row) × (Occurs old rows × (q old ≡ true)) × (f old ≡ r)
edited-Occurs q f rows r m hit =
    let (old, k, e) = of-map _ rows r m in
    elim (Bool-cases (q old)) [
      | inl chosen ↦ (old, (k, chosen), ground (arith, e))
      | inr other ↦ let same : old ≡ r = ground (arith, e) in absurd (ground (arith, ap q same))
    ]

module _ {LS DS : Type 0} (landmarks : Table LS Landmark) (details : Table DS DetailRow)
    (unmarshal : String → Result String StringMap) (ll : TableLaws landmarks)
    (dl : TableLaws details) (fetch_weather : Float64 → Float64 → Option String)
    (scan : DetailRow → Result String LandmarkDetail) where
  -- The rows of the landmark have the data of the edit, and no other row is changed.
  pub record IsEdited (now : Time) (id : Uuid) (e : Edit) (s s' : LS × DS) : Type 0 where
    pub landmarks_edited :
        landmarks.rows s'.0
        ≡ map (λ l. if has_id id l then edited now e l else l) (landmarks.rows s.0)
    pub details_edited :
        details.rows s'.1
        ≡ map (λ d. if of_landmark id d then edited_detail now e d else d) (details.rows s.1)

  -- The answer shows a landmark and a detail as the edit has made them of what was stored before.
  pub record IsShown (now : Time) (id : Uuid) (e : Edit) (s : LS × DS) (info : Info) : Type 0 where
    pub landmark : Landmark
    pub row : DetailRow
    pub detail : LandmarkDetail
    pub stored : Occurs landmark (landmarks.rows s.0) × (landmark.id ≡ id)
    pub row_stored : Occurs row (details.rows s.1) × (row.landmark_id ≡ id)
    pub scanned : scan (edited_detail now e row) ≡ ok detail
    pub shown : info ≡ merge_landmark_and_details fetch_weather (edited now e landmark) detail

  edit_in_tx-IsEdited :
      (now : Time) (id : Uuid) (e : Edit) (s s' : LS × DS)
      → edit_in_tx landmarks details unmarshal now id e s ≡ ok s'
      → IsEdited now id e s s'
  unfolding edit_in_tx
  edit_in_tx-IsEdited now id e s s' h =
      let (l, written, h1) =
        bind-map_err _ (landmarks.updates s.0 (has_id id) (edited now e)) _ s' h in
      let (d, written', h2) =
        bind-map_err _ (details.updates s.1 (of_landmark id) (edited_detail now e)) _ s' h1 in
      subst (IsEdited now id e s) (ok-injective _ s' _ refl h2) (record {
        landmarks_edited = (ll.updates_rows s.0 _ _ l.0 l.1 written).0;
        details_edited = (dl.updates_rows s.1 _ _ d.0 d.1 written').0;
      })

  fetch_edited-IsShown :
      (now : Time) (id : Uuid) (e : Edit) (s s' : LS × DS) (info : Info)
      → IsEdited now id e s s'
      → fetch_edited landmarks details unmarshal fetch_weather scan id s' ≡ ok info
      → IsShown now id e s info
  unfolding fetch_edited
  fetch_edited-IsShown now id e s s' info done h =
      elim (Result-cases (landmarks.first s'.0 (with_where (has_id id)))) [
        | inr (m, f) ↦ ground arith
        | inl (none, f) ↦ ground arith
        | inl (some l, f) ↦ elim (Result-cases (details.first s'.1 (with_where (of_landmark id)))) [
          | inr (m, g) ↦ ground arith
          | inl (none, g) ↦ ground arith
          | inl (some d, g) ↦ elim (Result-cases (scan d)) [
            | inr (m, k) ↦ ground arith
            | inl (detail, k) ↦
                let (m, hit) = ll.first_some s'.0 (with_where (has_id id)) l f in
                let (m', hit') = dl.first_some s'.1 (with_where (of_landmark id)) d g in
                let (old, stored, same) =
                  edited-Occurs (has_id id) (edited now e) (landmarks.rows s.0) l
                    (subst (Occurs l) done.landmarks_edited m) hit in
                let (row, row_stored, row_same) =
                  edited-Occurs (of_landmark id) (edited_detail now e) (details.rows s.1) d
                    (subst (Occurs d) done.details_edited m') hit' in
                record {
                  landmark = old;
                  row = row;
                  detail = detail;
                  stored = (stored.0, ground arith);
                  row_stored = (row_stored.0, ground arith);
                  scanned = ap scan row_same ∙ k;
                  shown = rw same (ground arith);
                }
          ]
        ]
      ]

  -- Why an edit is refused.
  pub data Refusal (begin commit : Option String) (now : Time) (id : Option Uuid)
      (body : Option Edit) (s : LS × DS) : Type 0 where
    invalid_id : id ≡ none → Refusal begin commit now id body s
    invalid_body : body ≡ none → Refusal begin commit now id body s
    not_begun : (m : String) → begin ≡ some m → Refusal begin commit now id body s
    not_updated :
        (i : Uuid) (e : Edit) (m : String)
        → id ≡ some i
        → body ≡ some e
        → landmarks.updates s.0 (has_id i) (edited now e) ≡ err m
        → Refusal begin commit now id body s
    detail_not_updated :
        (i : Uuid) (e : Edit) (m : String)
        → id ≡ some i
        → body ≡ some e
        → details.updates s.1 (of_landmark i) (edited_detail now e) ≡ err m
        → Refusal begin commit now id body s
    not_committed : (m : String) → commit ≡ some m → Refusal begin commit now id body s

  edit_in_tx-Refusal :
      (begin commit : Option String) (now : Time) (id : Uuid) (e : Edit) (s : LS × DS)
      (why : ℕ × String)
      → edit_in_tx landmarks details unmarshal now id e s ≡ err why
      → Refusal begin commit now (some id) (some e) s
  unfolding edit_in_tx
  edit_in_tx-Refusal begin commit now id e s why h =
      elim (Result-cases (landmarks.updates s.0 (has_id id) (edited now e))) [
        | inr (m, f) ↦ Refusal.not_updated id e m refl refl f
        | inl (l, f) ↦
            elim (Result-cases (details.updates s.1 (of_landmark id) (edited_detail now e))) [
              | inr (m, g) ↦ Refusal.detail_not_updated id e m refl refl g
              | inl (d, g) ↦ absurd (ground (arith, f, g, h))
            ]
      ]

  -- An edit is refused and changes nothing, which it is for an id or a body that is not valid and
  -- where a statement of the transaction fails, or it is committed: then the rows of the landmark
  -- have the data of the edit and no other row is changed, and an answer that is no error shows a
  -- landmark that was stored with this id, with the data of the edit.
  pub admin_edit_handler_lem :
      (begin commit : Option String) (now : Time) (id : Option Uuid) (body : Option Edit)
      (s : LS × DS)
      → let o =
          admin_edit_handler landmarks details unmarshal fetch_weather scan begin commit now id body
            s in
        ((why : ℕ × String) × (o ≡ (err why, s)) × Refusal begin commit now id body s)
        ⊎ ((i : Uuid) × (e : Edit) × (id ≡ some i)
            × (body ≡ some e)
            × IsEdited now i e s o.1
            × ((info : Info) → o.0 ≡ ok info → IsShown now i e s info))
  unfolding admin_edit_handler
  admin_edit_handler_lem begin commit now none body s = inl (_, refl, Refusal.invalid_id refl)
  admin_edit_handler_lem begin commit now (some i) none s = inl (_, refl, Refusal.invalid_body refl)
  admin_edit_handler_lem (some m) commit now (some i) (some e) s =
      inl (_, refl, Refusal.not_begun m refl)
  admin_edit_handler_lem none commit now (some i) (some e) s =
      elim (Result-cases (edit_in_tx landmarks details unmarshal now i e s)) [
        | inr (why, f) ↦
            rw (f, admin_edit_handler)
              (inl (why, refl, edit_in_tx-Refusal none commit now i e s why f))
        | inl (s', f) ↦ elim (Option-cases commit) [
          | inr (m, c) ↦ rw (f, c, admin_edit_handler) (inl (_, refl, Refusal.not_committed m refl))
          | inl c ↦
              let done = edit_in_tx-IsEdited now i e s s' f in
              rw (f, c, admin_edit_handler)
                (inr
                  (i, e, refl, refl, done, λ info h. fetch_edited-IsShown now i e s s' info done h))
        ]
      ]
