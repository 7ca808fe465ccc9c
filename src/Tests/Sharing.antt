-- ===== src/Tests/Sharing.antt =====
-- A listing for a client with the pro plan, and then a client with the free plan.
use landmark_api.Common.{refl, true, some, [], ◌∷◌, arith, eq_iff}
use landmark_api.Common.Maps.{lookup}
use landmark_api.Common.Text.{Free}
use landmark_api.Models.{Subscription, pro_plan}
use landmark_api.Http.{Context, new_writer}
use landmark_api.Landmarks.Handlers.{OnEmpty}
use landmark_api.Landmarks.Sharing.{CacheLaws, IsAnswer}
use landmark_api.Landmarks.Sharing.Requests.{get_one, get_list}
use landmark_api.Landmarks.Sharing.Runs.{Step, Reach, free_plan_answers}
use landmark_api.Tests.Fixtures.{alice, alice_free, request}
use landmark_api.Tests.Landmarks.{
  landmarks, details, unmarshal, no_weather, cache, json, store, column_is, ilike, show_int,
  uuid_parse, context,
}

laws : CacheLaws cache
unfolding lookup
laws = record { get_set = λ c k v j t h. ground (arith, eq_iff k j) }

abbrev pro : Subscription
pro = record alice_free { plan_type = pro_plan }

abbrev pro_context : Context
pro_context = record { user = some alice; subscription = some pro }

no_colon : Free b':' pro_plan
no_colon = ground arith

listed :
    Reach landmarks details cache json unmarshal no_weather column_is ilike show_int uuid_parse laws
      store
      (get_list landmarks details cache json unmarshal no_weather column_is ilike show_int
        uuid_parse laws OnEmpty.as_any
        ("list" ∷ [])
        (λ l. true)
        request
        pro_context
        new_writer
        store).1
listed = Reach.next Reach.here (
    Step.listing OnEmpty.as_any ("list" ∷ []) (λ l. true) request pro_context new_writer pro refl
      no_colon refl)

free_plan_answers_example :
    IsAnswer cache json
      (get_one landmarks details cache json unmarshal no_weather column_is ilike show_int uuid_parse
        laws "7" request context new_writer
        (get_list landmarks details cache json unmarshal no_weather column_is ilike show_int
          uuid_parse laws OnEmpty.as_any
          ("list" ∷ [])
          (λ l. true)
          request
          pro_context
          new_writer
          store).1).0
    × IsAnswer cache json
        (get_list landmarks details cache json unmarshal no_weather column_is ilike show_int
          uuid_parse laws OnEmpty.as_any
          ("list" ∷ [])
          (λ l. true)
          request
          context
          new_writer
          (get_list landmarks details cache json unmarshal no_weather column_is ilike show_int
            uuid_parse laws OnEmpty.as_any
            ("list" ∷ [])
            (λ l. true)
            request
            pro_context
            new_writer
            store).1).0
unfolding lookup
free_plan_answers_example =
    free_plan_answers landmarks details cache json unmarshal no_weather column_is ilike show_int
      uuid_parse laws "7" OnEmpty.as_any ("list" ∷ []) (λ l. true) request context new_writer
      alice_free (λ k. refl) listed refl refl
