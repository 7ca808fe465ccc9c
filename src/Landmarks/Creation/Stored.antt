-- ===== src/Landmarks/Creation/Stored.antt =====
-- What CreateLandmark of internal/api/handlers/landmark_handler.go leaves in the tables.
use landmark_api.Common.{
  ℕ, suc, String, ◌≡◌, ◌⊎◌, inl, inr, refl, sym, ap, ◌∙◌, Option, none, some, List, [], ◌∷◌, Result,
  ok, err, Result-cases, bind-ok, map_err-ok, arith,
}
use mathlib.Core.Path.{subst}
use landmark_api.Calendar.{Time}
use landmark_api.Models.{Uuid, Float64, AuditLog}
use landmark_api.Models.Landmark.{Landmark, LandmarkImage, LandmarkDetail}
use landmark_api.Database.{Table, TableLaws}
use landmark_api.Landmarks.Responses.{Info}
use landmark_api.Landmarks.Creation.{
  Store, LandmarkData, NewIds, Refusal, hooked, hooked_detail, row_of, associated, new_image,
  create_row, create_images, create_in_tx, create_landmark, fetch,
}

-- The images for the urls, the last one first.
abbrev pub url_images : NewIds → Time → ℕ → List String → List LandmarkImage → List LandmarkImage
url_images new now n [] rows = rows
url_images new now n (url ∷ urls) rows =
    url_images new now (suc n) urls (new_image now (new.image n) new.landmark url ∷ rows)

module _ {LS IS DS AS : Type 0} (landmarks : Table LS Landmark) (images : Table IS LandmarkImage)
    (details : Table DS LandmarkDetail) (audits : Table AS AuditLog)
    (save_images : IS → List LandmarkImage → Result String IS)
    (of_landmark : IS → Uuid → List LandmarkImage) (uuid_string : Uuid → String)
    (fetch_weather : Float64 → Float64 → Option String) (landmark_laws : TableLaws landmarks)
    (image_laws : TableLaws images) (detail_laws : TableLaws details) where
  -- The new landmark, its detail and its images are stored: those of the landmark itself, if it has
  -- any, and one for each url.
  pub record IsStored (new : NewIds) (now : Time) (body : LandmarkData) (s s' : Store LS IS DS AS)
      : Type 0 where
    pub landmark :
        landmarks.rows s'.landmarks
        ≡ row_of (hooked new now body.landmark) ∷ landmarks.rows s.landmarks
    pub detail :
        details.rows s'.details
        ≡ hooked_detail new now body.landmark_detail ∷ details.rows s.details
    pub own_images : IS
    pub own :
        ((own_images ≡ s.images) × ((hooked new now body.landmark).images ≡ []))
        ⊎ (save_images s.images (associated (hooked new now body.landmark)) ≡ ok own_images)
    pub urls : images.rows s'.images ≡ url_images new now 0 body.image_urls (images.rows own_images)

  create_images-rows :
      (new : NewIds) (now : Time) (n : ℕ) (urls : List String) (is is' : IS)
      → create_images landmarks images details audits save_images of_landmark uuid_string
          fetch_weather new now n urls is
        ≡ ok is'
      → images.rows is' ≡ url_images new now n urls (images.rows is)
  unfolding create_images
  create_images-rows new now n [] is is' e = ground (arith, e)
  create_images-rows new now n (url ∷ urls) is is' e =
      let (next, stored, rest) = bind-ok _ _ is' e in
      rw (sym (image_laws.create_rows is _ next (map_err-ok _ _ next stored)))
        (create_images-rows new now (suc n) urls next is' rest)

  create_row-rows :
      (l : Landmark) (s s1 : Store LS IS DS AS)
      → create_row landmarks images details audits save_images of_landmark uuid_string fetch_weather
          l s
        ≡ ok s1
      → (landmarks.rows s1.landmarks ≡ row_of l ∷ landmarks.rows s.landmarks)
        × (s1.details ≡ s.details)
        × (((s1.images ≡ s.images) × (l.images ≡ []))
            ⊎ (save_images s.images (associated l) ≡ ok s1.images))
  create_row-rows l s s1 e =
      let (ls, first, rest) = bind-ok _ _ s1 e in
      let (is, second, last) = bind-ok _ _ s1 rest in
      let same : record s { landmarks = ls; images = is } ≡ s1 = ground (arith, last) in
      subst
        (λ t.
          (landmarks.rows t.landmarks ≡ row_of l ∷ landmarks.rows s.landmarks)
          × (t.details ≡ s.details)
          × (((t.images ≡ s.images) × (l.images ≡ []))
              ⊎ (save_images s.images (associated l) ≡ ok t.images)))
        same
        (
          landmark_laws.create_rows s.landmarks (row_of l) ls first,
          refl,
          kept l.images refl is second,
        )
    where
      kept :
          (own : List LandmarkImage)
          → own ≡ l.images
          → (is : IS)
          → elim own [ [] ↦ ok s.images | i ∷ rest ↦ save_images s.images (associated l) ] ≡ ok is
          → ((is ≡ s.images) × (l.images ≡ [])) ⊎ (save_images s.images (associated l) ≡ ok is)
      kept [] none_own is e = inl (ground (arith, e), sym none_own)
      kept (i ∷ rest) own is e = inr e

  create_in_tx-IsStored :
      (new : NewIds) (now : Time) (body : LandmarkData) (s s' : Store LS IS DS AS)
      → create_in_tx landmarks images details audits save_images of_landmark uuid_string
          fetch_weather new now body s
        ≡ ok s'
      → IsStored new now body s s'
  unfolding create_in_tx
  create_in_tx-IsStored new now body s s' e =
      let (s1, first, rest) = bind-ok _ _ s' e in
      let (is, second, rest) = bind-ok _ _ s' rest in
      let (ds, third, last) = bind-ok _ _ s' rest in
      let (row, same_details, own) =
        create_row-rows (hooked new now body.landmark) s s1 (map_err-ok _ _ s1 first) in
      let same : record s1 { images = is; details = ds } ≡ s' = ground (arith, last) in
      subst (IsStored new now body s) same (record {
        landmark = row;
        detail =
            detail_laws.create_rows s1.details (hooked_detail new now body.landmark_detail) ds
              (map_err-ok _ _ ds third)
            ∙ ap (λ d. hooked_detail new now body.landmark_detail ∷ details.rows d) same_details;
        own_images = s1.images;
        own = own;
        urls = create_images-rows new now 0 body.image_urls s1.images is second;
      })

  audited :
      {new : NewIds} {now : Time} {body : LandmarkData} {s t : Store LS IS DS AS} {logs : AS}
      → IsStored new now body s t
      → IsStored new now body s (record t { audits = logs })
  audited a = record {
    landmark = a.landmark;
    detail = a.detail;
    own_images = a.own_images;
    own = a.own;
    urls = a.urls;
  }

  -- A creation that is refused changes nothing; any other stores the landmark, and then it may be
  -- that the landmark cannot be fetched.
  abbrev pub IsCreation :
      NewIds
      → Time
      → Option LandmarkData
      → Store LS IS DS AS
      → Result Refusal Info × Store LS IS DS AS
      → Type 0
  IsCreation new now body s out =
      ((refusal : Refusal) × (out.0 ≡ err refusal) × (out.1 ≡ s))
      ⊎ ((given : LandmarkData) × (body ≡ some given)
          × IsStored new now given s out.1
          × ((out.0 ≡ err (500, "Failed to fetch created landmark"))
              ⊎ ((info : Info) × (out.0 ≡ ok info))))

  committed :
      (commit : Option String) (new : NewIds) (now : Time) (body : LandmarkData)
      (s t : Store LS IS DS AS)
      → create_in_tx landmarks images details audits save_images of_landmark uuid_string
          fetch_weather new now body s
        ≡ ok t
      → IsCreation new now (some body) s (
          create_landmark landmarks images details audits save_images of_landmark uuid_string
            fetch_weather none commit new now
            (some body)
            s)
  unfolding create_landmark
  committed (some m) new now body s t e = inl (
    (500, "Failed to commit transaction"),
    rw (e, create_landmark) refl,
    rw (e, create_landmark) refl,
  )
  committed none new now body s t e =
      let a = create_in_tx-IsStored new now body s t e in
      elim (Result-cases (
        fetch landmarks images details audits save_images of_landmark uuid_string fetch_weather
          new.landmark t)) [
            | inr (m, f) ↦ rw (e, create_landmark) (rw f (inr (body, refl, a, inl refl)))
            | inl (none, f) ↦ rw (e, create_landmark) (rw f (inr (body, refl, a, inl refl)))
            | inl (some l, f) ↦
                rw (e, create_landmark) (rw f (inr (body, refl, audited a, inr (_, refl))))
          ]

  -- A creation that fails within its transaction, or before, changes nothing. Any other stores the
  -- landmark with its images and its detail, also where the answer is that the landmark cannot be
  -- fetched.
  pub create_landmark-IsCreation :
      (begin commit : Option String) (new : NewIds) (now : Time) (body : Option LandmarkData)
      (s : Store LS IS DS AS)
      → IsCreation new now body s (
          create_landmark landmarks images details audits save_images of_landmark uuid_string
            fetch_weather begin commit new now body s)
  unfolding create_landmark
  create_landmark-IsCreation begin commit new now none s = inl (_, refl, refl)
  create_landmark-IsCreation (some m) commit new now (some body) s = inl (_, refl, refl)
  create_landmark-IsCreation none commit new now (some body) s =
      elim (Result-cases (
        create_in_tx landmarks images details audits save_images of_landmark uuid_string
          fetch_weather new now body s)) [
            | inr (refusal, e) ↦
                inl (refusal, rw (e, create_landmark) refl, rw (e, create_landmark) refl)
            | inl (t, e) ↦ committed commit new now body s t e
          ]
