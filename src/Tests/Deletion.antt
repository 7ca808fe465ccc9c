-- ===== src/Tests/Deletion.antt =====
-- Deleting a landmark that is in the cache.
use landmark_api.Common.{
  arith, String, ◌≡◌, refl, none, some, List, [], ◌∷◌, eqb, ◌==◌, eq_iff, Bool-cases, inl, inr,
}
use landmark_api.Common.Text.{Free}
use landmark_api.Common.Maps.{lookup, erase, lookup-erase}
use landmark_api.Models.Landmark.{Landmark, LandmarkImage}
use landmark_api.Models.{free_plan}
use landmark_api.Database.{Table}
use landmark_api.Database.Memory
use landmark_api.Landmarks.Details.{DetailRow}
use landmark_api.Landmarks.Handlers.{Cache, get_cache_key}
use landmark_api.Landmarks.Deletion.{Deletable, admin_delete_handler}
use landmark_api.Landmarks.Deletion.Effects.{DeletesOne, IsDeleted, admin_delete_handler_lem}
use landmark_api.Tests.Fixtures.{bridge, uuid_string, differ}

abbrev landmarks : Table (List Landmark) Landmark
landmarks = Memory.table (λ a b. eqb a.id b.id)

abbrev images : Table (List LandmarkImage) LandmarkImage
images = Memory.table (λ a b. eqb a.id b.id)

abbrev details : Table (List DetailRow) DetailRow
details = Memory.table (λ a b. eqb a.id b.id)

abbrev cache : Cache (List (String × String))
cache = record { get = λ c k. lookup k c; set = λ c k v. (k, v) ∷ c; delete = λ c k. erase k c }

deletes_one : DeletesOne cache
unfolding DeletesOne
deletes_one c k j ne = rw lookup-erase (elim (Bool-cases (k == j)) [
  | inl same ↦ absurd (ne ((eq_iff k j).0 same))
  | inr other ↦ rw other refl
])

-- The bridge, and an answer of the free plan in the cache.
abbrev store :
    Deletable (List Landmark) (List LandmarkImage) (List DetailRow) (List (String × String))
store = record {
  landmarks = bridge ∷ [];
  images = [];
  details = [];
  cached = (get_cache_key ("id" ∷ "nobody" ∷ free_plan ∷ []), "{}") ∷ [];
}

deleted :
    (admin_delete_handler landmarks images details cache uuid_string none none (some 7) store).0
    ≡ none
unfolding admin_delete_handler
deleted = refl

free_plan-Free : Free b':' free_plan
free_plan-Free = ground arith

nobody-Free : Free b':' (uuid_string 7)
nobody-Free = ground arith

admin_delete_handler_lem_example :
    let s' =
      (admin_delete_handler landmarks images details cache uuid_string none none
        (some 7)
        store).1 in
    let key = get_cache_key ("id" ∷ uuid_string 7 ∷ free_plan ∷ []) in
    IsDeleted landmarks images details cache
      (Memory.laws _)
      (Memory.laws _)
      (Memory.laws _)
      uuid_string
      7
      store
      s'
    × (cache.get s'.cached key ≡ cache.get store.cached key)
admin_delete_handler_lem_example =
    admin_delete_handler_lem landmarks images details cache (Memory.laws _) (Memory.laws _)
      (Memory.laws _) uuid_string none none 7 store free_plan deletes_one free_plan-Free nobody-Free
      (differ _ _ refl) deleted
