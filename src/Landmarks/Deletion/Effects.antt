-- ===== src/Landmarks/Deletion/Effects.antt =====
-- What a deletion removes, and what it leaves in the cache.
use landmark_api.Common.{
  String, ◌≡◌, ◌≢◌, true, false, Option, none, some, [], ◌∷◌, inl, inr, arith, if◌then◌else◌,
  filter, Option-cases, Result-cases,
}
use landmark_api.Common.Text.{Free}
use landmark_api.Models.{Uuid}
use landmark_api.Models.Landmark.{Landmark, LandmarkImage}
use landmark_api.Database.{Table, TableLaws}
use landmark_api.Landmarks.Details.{DetailRow}
use landmark_api.Landmarks.Handlers.{Cache, get_cache_key}
use landmark_api.Landmarks.Keys.{get_cache_key-plan}
use landmark_api.Landmarks.Deletion.{
  Deletable, of_image, of_detail, of_landmark, delete_in_tx, admin_delete_handler,
}

-- DEL of Redis removes one key.
unfoldable pub DeletesOne : {C : Type 0} → Cache C → Type 0
DeletesOne {C} cache =
    (c : C) (k j : String) → k ≢ j → cache.get (cache.delete c k) j ≡ cache.get c j

module _ {LS IS DS C : Type 0} (landmarks : Table LS Landmark) (images : Table IS LandmarkImage)
    (details : Table DS DetailRow) (cache : Cache C) (ll : TableLaws landmarks)
    (il : TableLaws images) (dl : TableLaws details) (uuid_string : Uuid → String) where
  -- The rows of a landmark are gone from the three tables, and no others.
  pub record IsDeleted (id : Uuid) (s s' : Deletable LS IS DS C) : Type 0 where
    pub landmarks_left :
        landmarks.rows s'.landmarks
        ≡ filter (λ l. if of_landmark id l then false else true) (landmarks.rows s.landmarks)
    pub images_left :
        images.rows s'.images
        ≡ filter (λ i. if of_image id i then false else true) (images.rows s.images)
    pub details_left :
        details.rows s'.details
        ≡ filter (λ d. if of_detail id d then false else true) (details.rows s.details)

  -- A deletion that answers without an error has removed the landmark, its images and its details
  -- and no other row. Whatever the cache holds for the landmark and a plan it still holds
  -- afterwards, since the key that is deleted has no plan: the texts of the id and the plan have no
  -- colon in them and differ, and a key of the cache is deleted alone.
  pub admin_delete_handler_lem :
      (begin commit : Option String) (id : Uuid) (s : Deletable LS IS DS C) (plan : String)
      → DeletesOne cache
      → Free b':' plan
      → Free b':' (uuid_string id)
      → uuid_string id ≢ plan
      → (admin_delete_handler landmarks images details cache uuid_string begin commit (some id) s).0
        ≡ none
      → let s' =
          (admin_delete_handler landmarks images details cache uuid_string begin commit
            (some id)
            s).1 in
        let key = get_cache_key ("id" ∷ uuid_string id ∷ plan ∷ []) in
        IsDeleted id s s' × (cache.get s'.cached key ≡ cache.get s.cached key)
  unfolding admin_delete_handler delete_in_tx DeletesOne
  admin_delete_handler_lem (some m) commit id s plan one fp fi differ h = absurd (ground arith)
  admin_delete_handler_lem none commit id s plan one fp fi differ h =
      elim (Result-cases (images.delete s.images (of_image id))) [
        | inr (m, e) ↦ absurd (ground (arith, e))
        | inl ((is, n), e) ↦ elim (Result-cases (details.delete s.details (of_detail id))) [
          | inr (m, f) ↦ absurd (ground (arith, e, f))
          | inl ((ds, n'), f) ↦
              elim (Result-cases (landmarks.delete s.landmarks (of_landmark id))) [
                | inr (m, g) ↦ absurd (ground (arith, e, f, g))
                | inl ((ls, n''), g) ↦ elim (Option-cases commit) [
                  | inr (m, c) ↦ absurd (ground (arith, e, f, g, c))
                  | inl c ↦
                      rw (e, f, g, c, admin_delete_handler)
                        (
                          record {
                            landmarks_left = (ll.delete_rows s.landmarks _ ls n'' g).0;
                            images_left = (il.delete_rows s.images _ is n e).0;
                            details_left = (dl.delete_rows s.details _ ds n' f).0;
                          },
                          one s.cached _ _ (λ k. differ (
                              get_cache_key-plan ("id" ∷ []) ("id" ∷ uuid_string id ∷ [])
                                (uuid_string id) plan fi fp k)),
                        )
                ]
              ]
        ]
      ]
