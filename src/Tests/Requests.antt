-- ===== src/Tests/Requests.antt =====
-- The limiter and the guards of the routes at concrete requests.
use landmark_api.Common.{
  ℕ, ◌+◌, String, ◌≡◌, ◌⊎◌, refl, Option, none, some, [], ◌∷◌, ok, err, if◌then◌else◌, ◌==◌, Result,
}
use landmark_api.Common.Int.{ℤ, pos}
use landmark_api.Common.Maps.{lookup}
use landmark_api.Calendar.{Time}
use landmark_api.Errors.{Error, invalid_token}
use landmark_api.Models.{User, Subscription, new_rate_limit_config}
use landmark_api.Http.{Context, Writer, Handler, new_writer, write, with_user_and_subscription}
use landmark_api.Http.Fields.{get_header}
use landmark_api.Usage.{UsageStats}
use landmark_api.RateLimit.{UsageService, Limited, rate_limit, is_ip_rate_limited, is_spent}
use landmark_api.RateLimit.Bursts.{
  History, limits_after, expected, instants, is_ip_rate_limited-expected,
}
use landmark_api.RateLimit.Quota.{IsAdmitted, rate_limit_guards, rate_limit_passes}
use landmark_api.Middleware.{TokenCheck, auth_middleware, extract_token_from_header}
use landmark_api.Middleware.Guards.{
  api_route, IsAuthorized, IsRun, api_route_guards, auth_middleware_guards,
}
use landmark_api.Tests.Fixtures.{today, alice, alice_free, request}

-- Three requests, the newest first.
abbrev pub history : History
history = ("10.0.0.1", 2_000) ∷ ("10.0.0.2", 1_500) ∷ ("10.0.0.1", 1_000) ∷ []

is_ip_rate_limited-expected_example :
    (is_ip_rate_limited new_rate_limit_config 3_000 "10.0.0.1"
      (limits_after new_rate_limit_config history)).0
    ≡ expected new_rate_limit_config.ip_burst_limit 3_000 (instants "10.0.0.1" history)
is_ip_rate_limited-expected_example =
    is_ip_rate_limited-expected new_rate_limit_config 3_000 "10.0.0.1" history

-- A service over a count of requests, which every user has in common.
abbrev pub stats : ℕ → UsageStats
stats n = record {
  current_count = n;
  limit = pos 1000;
  remaining_requests = pos 0;
  period_end = today;
}

abbrev pub service : UsageService ℕ
service = record {
  get_current_usage = λ uid plan n. ok (stats n);
  increment_usage = λ uid n. (none, n + 1);
}

abbrev pub split_host_port : String → Option String
split_host_port s = if s == "10.0.0.1:4000" then some "10.0.0.1" else none

abbrev pub show_int : ℤ → String
show_int n = "n"

abbrev pub show_unix : Time → String
show_unix t = "t"

abbrev says : String → Handler ℕ
says text r ctx w n = (write text w, n)

abbrev known : Context
known = record { user = some alice; subscription = some alice_free }

abbrev idle : Limited ℕ
idle = record { ip_limits = []; world = 41 }

-- The first request of Alice passes.
first_admitted :
    IsAdmitted service new_rate_limit_config split_host_port show_int show_unix 5_000 request known
      new_writer idle
unfolding is_ip_rate_limited is_spent new_rate_limit_config lookup
first_admitted = record {
  ip = "10.0.0.1";
  user = alice;
  sub = alice_free;
  stats = stats 41;
  from_ip = refl;
  ip_free = refl;
  has_user = refl;
  has_sub = refl;
  used = refl;
  under = refl;
}

rate_limit_guards_example :
    ((rate_limit service new_rate_limit_config split_host_port show_int show_unix 5_000
          (says "a")
          request
          known
          new_writer
          idle
        ≡ rate_limit service new_rate_limit_config split_host_port show_int show_unix 5_000
            (says "b")
            request
            known
            new_writer
            idle)
      × ((rate_limit service new_rate_limit_config split_host_port show_int show_unix 5_000
            (says "a")
            request
            known
            new_writer
            idle).1.world
          ≡ 41))
    ⊎ IsAdmitted service new_rate_limit_config split_host_port show_int show_unix 5_000 request
        known new_writer idle
rate_limit_guards_example =
    rate_limit_guards service new_rate_limit_config split_host_port show_int show_unix 5_000 request
      known new_writer idle (says "a") (says "b")

rate_limit_passes_example :
    let out =
      rate_limit service new_rate_limit_config split_host_port show_int show_unix 5_000
        (says "a")
        request
        known
        new_writer
        idle in
    (out.0.sent ≡ (write "a" new_writer).sent)
    × (out.1.world
        ≡ (if get_header "X-Cache" (write "a" new_writer).header == "HIT" then 41 else 42))
rate_limit_passes_example =
    rate_limit_passes service new_rate_limit_config split_host_port show_int show_unix 5_000 request
      known new_writer idle (says "a") first_admitted

abbrev holder_of : String → Limited ℕ → Result Error (User × Subscription)
holder_of key s = if key == "key-of-alice" then ok (alice, alice_free) else err invalid_token

abbrev nobody : Context
nobody = record { user = none; subscription = none }

api_route_guards_example :
    ((¬ (
        IsAuthorized holder_of service new_rate_limit_config split_host_port show_int show_unix
          5_000 request nobody new_writer idle))
      × (api_route holder_of service new_rate_limit_config split_host_port show_int show_unix 5_000
            (says "a")
            request
            nobody
            new_writer
            idle
          ≡ api_route holder_of service new_rate_limit_config split_host_port show_int show_unix
              5_000
              (says "b")
              request
              nobody
              new_writer
              idle)
      × ((api_route holder_of service new_rate_limit_config split_host_port show_int show_unix 5_000
            (says "a")
            request
            nobody
            new_writer
            idle).1.world
          ≡ 41))
    ⊎ IsRun holder_of service new_rate_limit_config split_host_port show_int show_unix 5_000 request
        nobody new_writer idle
        (says "a")
api_route_guards_example =
    api_route_guards holder_of service new_rate_limit_config split_host_port show_int show_unix
      5_000 request nobody new_writer idle (says "a") (says "b")

abbrev check : TokenCheck ℕ
check token n = if token == "abc" then some (ok (alice, alice_free)) else some (err invalid_token)

auth_middleware_guards_example :
    ((auth_middleware check (says "a") request nobody new_writer 41
        ≡ auth_middleware check (says "b") request nobody new_writer 41)
      × (((out : Writer) × (auth_middleware check (says "a") request nobody new_writer 41
              ≡ some (out, 41)))
          ⊎ (check (extract_token_from_header (get_header "Authorization" request.header)) 41
              ≡ none)))
    ⊎ ((user : User) × (sub : Subscription) × (check
            (extract_token_from_header (get_header "Authorization" request.header))
            41
          ≡ some (ok (user, sub)))
        × (auth_middleware check (says "a") request nobody new_writer 41
            ≡ some (says "a" request (with_user_and_subscription nobody user sub) new_writer 41)))
auth_middleware_guards_example =
    auth_middleware_guards check (says "a") (says "b") request nobody new_writer 41
