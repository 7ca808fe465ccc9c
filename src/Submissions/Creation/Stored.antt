-- ===== src/Submissions/Creation/Stored.antt =====
-- What CreateSubmission of internal/api/handlers/landmark_handler.go leaves in the tables.
use mathlib.Core.Path.{subst}
use landmark_api.Common.{
  ℕ, suc, String, ◌≡◌, ◌⊎◌, inl, inr, refl, sym, ap, ◌∙◌, Option, none, some, List, [], ◌∷◌, Result,
  ok, err, Result-cases, bind-ok, map_err-ok, arith,
}
use landmark_api.Calendar.{Time}
use landmark_api.Models.{Uuid, AuditLog}
use landmark_api.Models.Landmark.{
  SubmissionLandmark, SubmissionLandmarkImage, SubmissionLandmarkDetail,
}
use landmark_api.Database.{Table, TableLaws}
use landmark_api.Submissions.Creation.{
  Store, SubmissionData, NewIds, Refusal, pending, new_image, new_detail, create_images,
  create_in_tx, create_submission,
}

-- The images for the urls, the last one first.
abbrev url_images :
    NewIds → Time → ℕ → List String → List SubmissionLandmarkImage → List SubmissionLandmarkImage
url_images new now n [] rows = rows
url_images new now n (url ∷ urls) rows =
    url_images new now (suc n) urls (new_image now (new.image n) new.submission url ∷ rows)

module _ {SS IS DS AS : Type 0} (submissions : Table SS SubmissionLandmark)
    (images : Table IS SubmissionLandmarkImage) (details : Table DS SubmissionLandmarkDetail)
    (audits : Table AS AuditLog)
    (save_associations : SubmissionLandmark → IS → DS → Result String (IS × DS))
    (uuid_string : Uuid → String) (submission_laws : TableLaws submissions)
    (image_laws : TableLaws images) (detail_laws : TableLaws details) where
  -- One submission more, which is pending, with its detail and an image for each url, beside what
  -- the row itself brings with it.
  pub record IsSubmitted (new : NewIds) (now : Time) (body : SubmissionData)
      (s s' : Store SS IS DS AS) : Type 0 where
    pub submission :
        submissions.rows s'.submissions
        ≡ pending new now body.landmark ∷ submissions.rows s.submissions
    pub own_images : IS
    pub own_details : DS
    pub own :
        save_associations (pending new now body.landmark) s.images s.details
        ≡ ok (own_images, own_details)
    pub detail :
        details.rows s'.details ≡ new_detail new now body.landmark_detail ∷ details.rows own_details
    pub urls : images.rows s'.images ≡ url_images new now 0 body.image_urls (images.rows own_images)

  create_images-rows :
      (new : NewIds) (now : Time) (n : ℕ) (urls : List String) (is is' : IS)
      → create_images submissions images details audits save_associations uuid_string new now n urls
          is
        ≡ ok is'
      → images.rows is' ≡ url_images new now n urls (images.rows is)
  unfolding create_images
  create_images-rows new now n [] is is' e = ground (arith, e)
  create_images-rows new now n (url ∷ urls) is is' e =
      let (next, stored, rest) = bind-ok _ _ is' e in
      rw (sym (image_laws.create_rows is _ next (map_err-ok _ _ next stored)))
        (create_images-rows new now (suc n) urls next is' rest)

  create_in_tx-IsSubmitted :
      (new : NewIds) (now : Time) (body : SubmissionData) (s s' : Store SS IS DS AS)
      → create_in_tx submissions images details audits save_associations uuid_string new now body s
        ≡ ok s'
      → IsSubmitted new now body s s'
  unfolding create_in_tx
  create_in_tx-IsSubmitted new now body s s' e =
      let (s1, row, rest) = bind-ok _ _ s' e in
      let (ss, first, rest1) = bind-ok _ _ s1 (map_err-ok _ _ s1 row) in
      let (saved, second, rest2) = bind-ok _ _ s1 rest1 in
      let stored : record s { submissions = ss; images = saved.0; details = saved.1 } ≡ s1 =
        ground (arith, rest2) in
      let (is, third, rest3) = bind-ok _ _ s' rest in
      let (ds, fourth, last) = bind-ok _ _ s' rest3 in
      let same : record s1 { images = is; details = ds } ≡ s' = ground (arith, last) in
      subst (IsSubmitted new now body s) same (record {
        submission =
            ap (λ t. submissions.rows t.submissions) (sym stored)
            ∙ submission_laws.create_rows s.submissions _ ss first;
        own_images = s1.images;
        own_details = s1.details;
        own = second ∙ ap (λ t. ok (t.images, t.details)) stored;
        detail = detail_laws.create_rows s1.details _ ds (map_err-ok _ _ ds fourth);
        urls = create_images-rows new now 0 body.image_urls s1.images is third;
      })

  -- A creation that is refused changes nothing; any other answers with the new id.
  abbrev pub IsCreation :
      NewIds
      → Time
      → Option SubmissionData
      → Store SS IS DS AS
      → Result Refusal Uuid × Store SS IS DS AS
      → Type 0
  IsCreation new now body s out =
      ((refusal : Refusal) × (out.0 ≡ err refusal) × (out.1 ≡ s))
      ⊎ ((given : SubmissionData) × (body ≡ some given)
          × (out.0 ≡ ok new.submission)
          × IsSubmitted new now given s out.1)

  committed :
      (commit : Option String) (new : NewIds) (now : Time) (body : SubmissionData)
      (s t : Store SS IS DS AS)
      → create_in_tx submissions images details audits save_associations uuid_string new now body s
        ≡ ok t
      → IsCreation new now (some body) s (
          create_submission submissions images details audits save_associations uuid_string none
            commit new now
            (some body)
            s)
  unfolding create_submission
  committed (some m) new now body s t e = inl (
    (500, "Failed to commit transaction"),
    rw (e, create_submission) refl,
    rw (e, create_submission) refl,
  )
  committed none new now body s t e =
      let a = create_in_tx-IsSubmitted new now body s t e in
      inr (
        body,
        refl,
        rw (e, create_submission) refl,
        rw (e, create_submission)
            (record {
              submission = a.submission;
              own_images = a.own_images;
              own_details = a.own_details;
              own = a.own;
              detail = a.detail;
              urls = a.urls;
            }),
      )

  -- A submission either is refused and changes nothing, or it is answered with its new id and
  -- stands there as pending, with its detail and an image for each url.
  pub create_submission-IsCreation :
      (begin commit : Option String) (new : NewIds) (now : Time) (body : Option SubmissionData)
      (s : Store SS IS DS AS)
      → IsCreation new now body s (
          create_submission submissions images details audits save_associations uuid_string begin
            commit new now body s)
  unfolding create_submission
  create_submission-IsCreation begin commit new now none s = inl (_, refl, refl)
  create_submission-IsCreation (some m) commit new now (some body) s = inl (_, refl, refl)
  create_submission-IsCreation none commit new now (some body) s =
      elim (Result-cases (
        create_in_tx submissions images details audits save_associations uuid_string new now body
          s)) [
            | inr (refusal, e) ↦
                inl (refusal, rw (e, create_submission) refl, rw (e, create_submission) refl)
            | inl (t, e) ↦ committed commit new now body s t e
          ]
