-- ===== src/Submissions/Approval.antt =====
-- What an approval writes.
use landmark_api.Common.{
  ℕ, suc, String, ◌≡◌, refl, true, Option, none, some, List, [], ◌∷◌, Result, ok, err, inl, inr,
  ◌⊎◌, arith, map, if◌then◌else◌, Occurs, Option-cases, Result-cases, bind-ok, map_err-ok, ap, ◌∙◌,
}
use mathlib.Core.Path.{subst}
use landmark_api.Calendar.{Time}
use landmark_api.Models.{Uuid, AuditLog}
use landmark_api.Models.Landmark.{
  Landmark, LandmarkImage, LandmarkDetail, SubmissionLandmark, SubmissionLandmarkImage,
  before_create, before_create_detail, before_save,
}
use landmark_api.Database.{Table, TableLaws, with_where}
use landmark_api.Submissions.{
  Store, NewIds, Refusal, landmark_of, image_of, detail_of, has_id, with_status, create_images,
  approve_in_tx, approve_submission, read_submission,
}

-- The rows of images after those of a submission were added one by one.
abbrev pub with_images :
    (ℕ → Uuid)
    → Time
    → Uuid
    → ℕ
    → List SubmissionLandmarkImage
    → List LandmarkImage
    → List LandmarkImage
with_images id now landmark n [] rows = rows
with_images id now landmark n (image ∷ rest) rows =
    with_images id now landmark (suc n) rest (image_of now (id n) landmark image ∷ rows)

module _ {LS IS DS SS AS : Type 0} (landmarks : Table LS Landmark) (images : Table IS LandmarkImage)
    (details : Table DS LandmarkDetail) (submissions : Table SS SubmissionLandmark)
    (audits : Table AS AuditLog) (ll : TableLaws landmarks) (il : TableLaws images)
    (dl : TableLaws details) (sl : TableLaws submissions) (uuid_string : Uuid → String) where
  -- One landmark, its images and its detail more, with the data of a stored submission, which alone
  -- is marked as approved.
  pub record IsApproved (new : NewIds) (now : Time) (id : Uuid) (sub : SubmissionLandmark)
      (s s' : Store LS IS DS SS AS) : Type 0 where
    pub stored : Occurs sub (submissions.rows s.submissions)
    pub same_id : has_id id sub ≡ true
    pub one_landmark :
        landmarks.rows s'.landmarks
        ≡ before_create new.hook now (before_save new.hook (landmark_of new.landmark sub))
          ∷ landmarks.rows s.landmarks
    pub its_images :
        images.rows s'.images
        ≡ with_images new.image now new.landmark 0 sub.images (images.rows s.images)
    pub one_detail :
        details.rows s'.details
        ≡ before_create_detail new.hook now (detail_of new.detail new.landmark sub)
          ∷ details.rows s.details
    pub marked :
        submissions.rows s'.submissions
        ≡ map
            (λ x. if has_id sub.id x then with_status now "approved" x else x)
            (submissions.rows s.submissions)

  create_images-rows :
      (id : ℕ → Uuid) (now : Time) (landmark : Uuid) (n : ℕ) (new : List SubmissionLandmarkImage)
      (s s' : IS)
      → create_images landmarks images details submissions audits uuid_string id now landmark n new
          s
        ≡ ok s'
      → images.rows s' ≡ with_images id now landmark n new (images.rows s)
  unfolding create_images
  create_images-rows id now landmark n [] s s' h = ground arith
  create_images-rows id now landmark n (image ∷ rest) s s' h =
      let (t, stored, later) = bind-ok _ _ s' h in
      subst (λ rows. images.rows s' ≡ with_images id now landmark (suc n) rest rows)
        (il.create_rows s _ t (map_err-ok _ _ t stored))
        (create_images-rows id now landmark (suc n) rest t s' later)

  found :
      (id : Uuid) (s : SS) (sub : SubmissionLandmark)
      (o : Result String (Option SubmissionLandmark))
      → submissions.first s (with_where (has_id id)) ≡ o
      → read_submission o ≡ ok sub
      → Occurs sub (submissions.rows s) × (has_id id sub ≡ true)
  found id s sub (ok (some x)) e f =
      let same : x ≡ sub = ground (arith, f) in
      sl.first_some s (with_where (has_id id)) sub (e ∙ ap (λ y. ok (some y)) same)
  found id s sub (ok none) e f = absurd (ground (arith, f))
  found id s sub (err m) e f = absurd (ground (arith, f))

  approve_in_tx-IsApproved :
      (new : NewIds) (now : Time) (id : Uuid) (s s' : Store LS IS DS SS AS)
      (sub : SubmissionLandmark)
      → approve_in_tx landmarks images details submissions audits uuid_string new now id s
        ≡ ok (sub, s')
      → IsApproved new now id sub s s'
  unfolding approve_in_tx
  approve_in_tx-IsApproved new now id s s' sub h =
      let (x, read, h1) = bind-ok _ _ (sub, s') h in
      let (ls, one, h2) = bind-ok _ _ (sub, s') h1 in
      let (is, two, h3) = bind-ok _ _ (sub, s') h2 in
      let (ds, three, h4) = bind-ok _ _ (sub, s') h3 in
      let (updated, four, h5) = bind-ok _ _ (sub, s') h4 in
      let (occurs, has) = found id s.submissions x _ refl read in
      let t : Store LS IS DS SS AS = record s {
        landmarks = ls;
        images = is;
        details = ds;
        submissions = updated.0;
      } in
      let made : IsApproved new now id x s t = record {
        stored = occurs;
        same_id = has;
        one_landmark = ll.create_rows s.landmarks _ ls (map_err-ok _ _ ls one);
        its_images = create_images-rows new.image now new.landmark 0 x.images s.images is two;
        one_detail = dl.create_rows s.details _ ds (map_err-ok _ _ ds three);
        marked =
            (sl.updates_rows s.submissions _ _ updated.0 updated.1 (map_err-ok _ _ updated four)).0;
      } in
      let same_sub : x ≡ sub = ground (arith, h5) in
      let same_store : t ≡ s' = ground (arith, h5) in
      subst (λ y. IsApproved new now id y s s') same_sub
        (subst (λ u. IsApproved new now id x s u) same_store made)

  -- An approval either answers with an error and changes nothing, the audit log included, or it
  -- answers with the id of a new landmark and has done all of its work: the landmark, its images
  -- and its detail stand there with the data of a stored submission with the id, and the rows with
  -- that submission's id are marked as approved.
  pub approve_submission_lem :
      (begin commit : Option String) (new : NewIds) (now : Time) (id : Option Uuid)
      (s : Store LS IS DS SS AS)
      → let (answer, s') =
          approve_submission landmarks images details submissions audits uuid_string begin commit
            new now id s in
        ((refusal : Refusal) × (answer ≡ err refusal) × (s' ≡ s))
        ⊎ ((i : Uuid) × (sub : SubmissionLandmark) × (id ≡ some i)
            × (answer ≡ ok new.landmark)
            × IsApproved new now i sub s s')
  unfolding approve_submission
  approve_submission_lem begin commit new now none s =
      inl ((400, "Invalid submission ID"), refl, refl)
  approve_submission_lem (some m) commit new now (some i) s = inl (_, refl, refl)
  approve_submission_lem none commit new now (some i) s =
      elim (Result-cases
        (approve_in_tx landmarks images details submissions audits uuid_string new now i s)) [
          | inr (refusal, e) ↦
              inl (refusal, rw (e, approve_submission) refl, rw (e, approve_submission) refl)
          | inl ((sub, t), e) ↦ elim (Option-cases commit) [
            | inr (m, c) ↦ inl (
              (500, "Failed to commit transaction"),
              rw (e, c, approve_submission) refl,
              rw (e, c, approve_submission) refl,
            )
            | inl c ↦
                let a = approve_in_tx-IsApproved new now i s t sub e in
                inr (
                  i,
                  sub,
                  refl,
                  rw (e, c, approve_submission) refl,
                  rw (e, c, approve_submission)
                      (record {
                        stored = a.stored;
                        same_id = a.same_id;
                        one_landmark = a.one_landmark;
                        its_images = a.its_images;
                        one_detail = a.one_detail;
                        marked = a.marked;
                      }),
                )
          ]
        ]
