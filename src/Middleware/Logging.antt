-- ===== src/Middleware/Logging.antt =====
-- The routes of apiRouter as cmd/api/main.go sets them up, with the log of requests between the rate
-- limiter and the handler.
use landmark_api.Common.{
  ℕ, String, ◌≡◌, ◌⊎◌, inl, inr, refl, sym, ap, ◌∙◌, Option, List, Bool, true, false, Result,
  Bool-cases, ◌==◌, if◌then◌else◌, eq_iff,
}
use mathlib.Core.Path.{subst}
use landmark_api.Common.Int.{ℤ}
use landmark_api.Calendar.{Time}
use landmark_api.Errors.{Error}
use landmark_api.Models.{Uuid, User, Subscription, RateLimitConfig, RequestLog}
use landmark_api.Database.{Table, TableLaws}
use landmark_api.Http.{Request, Context, Writer, Handler, observed, with_user_and_subscription}
use landmark_api.Http.Fields.{get_header}
use landmark_api.RateLimit.{UsageService, Limited, rate_limit}
use landmark_api.RateLimit.Quota.{rate_limit_passes}
use landmark_api.Middleware.{api_key_middleware}
use landmark_api.Middleware.Guards.{api_route, IsAuthorized, api_route_cases}
use landmark_api.Logs.{log_request_middleware}
use landmark_api.Logs.Recording.{entry, IsWritten, log_request_middleware_lem}

module _ {W LS : Type 0} where
  -- The services do not read the log.
  abbrev pub beside : UsageService W → UsageService (W × LS)
  beside service = record {
    get_current_usage = λ uid plan s. service.get_current_usage uid plan s.0;
    increment_usage = λ uid s. let (e, w) = service.increment_usage uid s.0 in (e, (w, s.1));
  }

  same_second : (b : Bool) (x y : W × LS) → y.1 ≡ x.1 → (if b then x else y).1 ≡ x.1
  same_second true x y e = refl
  same_second false x y e = e

  abbrev pub without_log : Limited (W × LS) → Limited W
  without_log s = record { ip_limits = s.ip_limits; world = s.world.0 }

module _ {W LS : Type 0} (lookup : String → Limited W → Result Error (User × Subscription))
    (service : UsageService W) (config : RateLimitConfig) (split_host_port : String → Option String)
    (show_int : ℤ → String) (show_unix : Time → String) (logs : Table LS RequestLog)
    (uuid_string : Uuid → String) (show : ℕ → String) (few many : ℕ) (time : Time) where
  unfoldable pub logged_route : ℕ → Handler W → Handler (Limited (W × LS))
  logged_route now next =
      api_route (λ key s. lookup key (without_log s)) (beside service) config split_host_port
        show_int show_unix now (log_request_middleware logs uuid_string show few many time next)

  module _ (laws : TableLaws logs) (now : ℕ) (next : Handler W) (r : Request) (ctx : Context)
      (w : Writer) (s : Limited (W × LS)) where
    abbrev pub IsAllowed : Type 0
    IsAllowed =
        IsAuthorized (λ key t. lookup key (without_log t)) (beside service) config split_host_port
          show_int show_unix now r ctx w s

    abbrev context_of : IsAllowed → Context
    context_of a = with_user_and_subscription ctx a.user a.sub

    abbrev out : Writer × Limited (W × LS)
    out = logged_route now next r ctx w s

    abbrev limited : IsAllowed → Writer × Limited (W × LS)
    limited a =
        rate_limit (beside service) config split_host_port show_int show_unix now
          (log_request_middleware logs uuid_string show few many time next) r (context_of a) w s

    opened : (a : IsAllowed) → out ≡ limited a
    unfolding logged_route api_route api_key_middleware
    opened a =
        let key = get_header "X-Api-Key" r.header in
        elim (Bool-cases (key == "")) [
          | inl missing ↦ absurd (a.has_key ((eq_iff key "").0 missing))
          | inr given ↦ rw given (rw a.holder refl)
        ]

    -- The client is sent what the handler sends for the holder of the key, and the log has one
    -- entry more, unless the statement that writes it fails.
    pub record IsServed : Type 0 where
      pub allowed : IsAllowed
      pub sent : out.0.sent ≡ (next r (context_of allowed) w s.world.0).0.sent
      pub logged :
          IsWritten logs laws
            (entry logs laws uuid_string show few many time next r
              (context_of allowed)
              w
              s.world.0
              s.world.1
              allowed.user
              (observed next r (context_of allowed) w s.world.0).0)
            s.world.1
            out.1.world.1

    served : w.called ≡ List.[] → IsAllowed → IsServed
    unfolding with_user_and_subscription
    served fresh a =
        let (sent, world) =
          rate_limit_passes (beside service) config split_host_port show_int show_unix now r
            (context_of a) w s (log_request_middleware logs uuid_string show few many time next)
            a.admitted in
        let (answer, changed, recorded) =
          log_request_middleware_lem logs laws uuid_string show few many time next r (context_of a)
            w s.world.0 s.world.1 fresh in
        let logged_by =
          log_request_middleware logs uuid_string show few many time next r (context_of a) w
            s.world in
        let same_log : out.1.world.1 ≡ logged_by.1.1 =
          ap (λ o. o.1.world.1) (opened a) ∙ ap (λ p. p.1) world ∙ same_second _ _ _ refl in
        record {
          allowed = a;
          sent = ap (λ o. o.0.sent) (opened a) ∙ sent ∙ ap (λ v. v.sent) answer;
          logged =
              subst
                (IsWritten logs laws
                  (entry logs laws uuid_string show few many time next r (context_of a) w s.world.0
                    s.world.1 a.user (observed next r (context_of a) w s.world.0).0)
                  s.world.1)
                (sym same_log) recorded;
        }

    -- A request to a route of main.go's apiRouter either has no known key or is not within the limits
    -- of the key's holder, and then neither it is logged nor is anything outside the limiter
    -- changed, or it has such a key and is within them: then the client is sent what the handler
    -- sends, and the log gets one entry, in the name of the holder and with the code of the handler,
    -- unless the statement that writes it fails. No code has been set before.
    pub logged_route_lem : w.called ≡ List.[] → ((¬ IsAllowed) × (out.1.world ≡ s.world)) ⊎ IsServed
    unfolding logged_route
    logged_route_lem fresh =
        elim (api_route_cases (λ key t. lookup key (without_log t)) (beside service) config
          split_host_port show_int show_unix now r ctx w s
          (log_request_middleware logs uuid_string show few many time next)
          (log_request_middleware logs uuid_string show few many time next)) [
            | inl (denied, same, kept) ↦ inl (denied, kept)
            | inr a ↦ inr (served fresh a)
          ]
