-- ===== src/Middleware/Guards.antt =====
-- What stands before a handler of apiRouter: an API key, then the rate limiter.
use landmark_api.Common.{
  ℕ, String, ◌≡◌, ◌≢◌, refl, sym, ap, ◌∙◌, arith, ok-injective, if◌then◌else◌, Option, none, some,
  Result, ok, err, inl, inr, ◌⊎◌, Bool-cases, Option-cases, Result-cases, ◌==◌, eq_iff,
}
use mathlib.Core.Path.{subst}
use landmark_api.Common.Int.{ℤ}
use landmark_api.Calendar.{Time}
use landmark_api.Errors.{Error}
use landmark_api.Models.{User, Subscription, RateLimitConfig}
use landmark_api.Http.{Request, Context, Writer, Handler, http_error, with_user_and_subscription}
use landmark_api.Http.Fields.{get_header}
use landmark_api.RateLimit.{UsageService, Limited, rate_limit}
use landmark_api.RateLimit.Quota.{IsAdmitted, rate_limit_cases, rate_limit_passes}
use landmark_api.Middleware.{
  TokenCheck, auth_middleware, api_key_middleware, extract_token_from_header,
}

-- The routes of main.go's apiRouter, those of landmarks: the ones below /api/v1/contribution and
-- /api/v1/suggestions belong to routers of their own, with other middlewares.
-- `next` is what stands behind the limiter.
module _ {W : Type 0} (lookup : String → Limited W → Result Error (User × Subscription))
    (service : UsageService W) (config : RateLimitConfig) (split_host_port : String → Option String)
    (show_int : ℤ → String) (show_unix : Time → String) where
  unfoldable pub api_route : ℕ → Handler W → Handler (Limited W)
  api_route now next =
      api_key_middleware lookup
        (rate_limit service config split_host_port show_int show_unix now next)

  module _ (now : ℕ) (r : Request) (ctx : Context) (w : Writer) (s : Limited W) where
    -- The key of the request belongs to the user, and the limiter admits that user's request.
    pub record IsAuthorized : Type 0 where
      pub user : User
      pub sub : Subscription
      pub has_key : get_header "X-Api-Key" r.header ≢ ""
      pub holder : lookup (get_header "X-Api-Key" r.header) s ≡ ok (user, sub)
      pub admitted :
          IsAdmitted service config split_host_port show_int show_unix now r
            (with_user_and_subscription ctx user sub)
            w
            s

    abbrev pub run : Handler W → Writer × Limited W
    run next = api_route now next r ctx w s

    -- What the handler does in the name of the key's holder.
    abbrev pub handled : Handler W → IsAuthorized → Writer × W
    handled next a = next r (with_user_and_subscription ctx a.user a.sub) w s.world

    -- The request is authorized; the client is sent what the handler sends, and the world is what
    -- the handler leaves, with the request counted for the holder unless it is a hit of the cache.
    pub record IsRun (next : Handler W) : Type 0 where
      pub authorized : IsAuthorized
      pub sent : (run next).0.sent ≡ (handled next authorized).0.sent
      pub left : (run next).1.world ≡ (
          if get_header "X-Cache" (handled next authorized).0.header == "HIT"
          then (handled next authorized).1
          else (service.increment_usage authorized.user.id (handled next authorized).1).1)

    authorized-run :
        (next : Handler W) (a : IsAuthorized)
        → run next
          ≡ rate_limit service config split_host_port show_int show_unix now next r
              (with_user_and_subscription ctx a.user a.sub)
              w
              s
    unfolding api_route api_key_middleware
    authorized-run next a =
        let key = get_header "X-Api-Key" r.header in
        elim (Bool-cases (key == "")) [
          | inl missing ↦ absurd (a.has_key ((eq_iff key "").0 missing))
          | inr given ↦ rw given (rw a.holder refl)
        ]

    authorized-IsRun : (next : Handler W) → IsAuthorized → IsRun next
    unfolding with_user_and_subscription
    authorized-IsRun next a =
        let (sent, left) =
          rate_limit_passes service config split_host_port show_int show_unix now r
            (with_user_and_subscription ctx a.user a.sub) w s next a.admitted in
        let opened = authorized-run next a in
        let same : a.user ≡ a.admitted.user = ground (arith, a.admitted.has_user) in
        record {
          authorized = a;
          sent = ap (λ o. o.0.sent) opened ∙ sent;
          left =
              ap (λ o. o.1.world) opened
              ∙ subst
                  (λ (u : User).
                    (rate_limit service config split_host_port show_int show_unix now next r
                      (with_user_and_subscription ctx a.user a.sub) w s).1.world
                    ≡ (if get_header "X-Cache" (handled next a).0.header == "HIT"
                        then (handled next a).1
                        else (service.increment_usage u.id (handled next a).1).1))
                  (sym same) left;
        }

    -- Whether a request has a known key and is within the limits of its holder is decided. Where it
    -- is not, the outcome is the same for any two handlers, and the world outside the limiter stays
    -- as it is.
    pub api_route_cases :
        (next next' : Handler W)
        → ((¬ IsAuthorized) × (run next ≡ run next') × ((run next).1.world ≡ s.world))
          ⊎ IsAuthorized
    unfolding api_route api_key_middleware
    api_route_cases next next' = elim (Bool-cases (get_header "X-Api-Key" r.header == "")) [
      | inl missing ↦ inl (
        λ a. a.has_key ((eq_iff (get_header "X-Api-Key" r.header) "").0 missing),
        rw missing refl,
        rw missing refl,
      )
      | inr given ↦ elim (Result-cases (lookup (get_header "X-Api-Key" r.header) s)) [
        | inr (e, failing) ↦ inl (
          λ a. ground (arith, failing, a.holder),
          rw given (rw failing refl),
          rw given (rw failing refl),
        )
        | inl ((user, sub), holder) ↦
            elim (rate_limit_cases service config split_host_port show_int show_unix now r
              (with_user_and_subscription ctx user sub) w s next next') [
                | inl ((same, kept), denied) ↦ inl (
                  λ a. denied (
                      subst
                        (λ p.
                          IsAdmitted service config split_host_port show_int show_unix now r
                            (with_user_and_subscription ctx p.0 p.1) w s)
                        (ok-injective _ _ _ a.holder holder) a.admitted),
                  rw given (rw holder same),
                  rw given (rw holder kept),
                )
                | inr admitted ↦ inr (record {
                  user = user;
                  sub = sub;
                  has_key = λ e. cc (given, (eq_iff (get_header "X-Api-Key" r.header) "").1 e);
                  holder = holder;
                  admitted = admitted;
                })
              ]
      ]
    ]

    -- A request to a route of main.go's apiRouter either has an API key that the service knows and
    -- is within the limits of the holder's plan, and then the handler is run in the name of the
    -- holder, what it sends is sent, and what it does is kept; or it does not, and then the outcome
    -- is the same for any two handlers, and the world outside the limiter stays as it is.
    pub api_route_guards :
        (next next' : Handler W)
        → ((¬ IsAuthorized) × (run next ≡ run next') × ((run next).1.world ≡ s.world)) ⊎ IsRun next
    api_route_guards next next' = elim (api_route_cases next next') [
      | inl refused ↦ inl refused
      | inr a ↦ inr (authorized-IsRun next a)
    ]

module _ {W : Type 0} (verify : TokenCheck W) (next next' : Handler W) (r : Request) (ctx : Context)
    (w : Writer) (world : W) where
  -- Behind AuthMiddleware or AdminMiddleware a handler is run only with a token that the check
  -- accepts, and in the context of the user and subscription that the check gives. In any other
  -- case the outcome is the same for any two handlers, and the world stays as it is.
  pub auth_middleware_guards :
      ((auth_middleware verify next r ctx w world ≡ auth_middleware verify next' r ctx w world)
        × (((out : Writer) × (auth_middleware verify next r ctx w world ≡ some (out, world)))
            ⊎ (verify (extract_token_from_header (get_header "Authorization" r.header)) world
                ≡ none)))
      ⊎ ((user : User) × (sub : Subscription) × (verify
              (extract_token_from_header (get_header "Authorization" r.header))
              world
            ≡ some (ok (user, sub)))
          × (auth_middleware verify next r ctx w world
              ≡ some (next r (with_user_and_subscription ctx user sub) w world)))
  unfolding auth_middleware
  auth_middleware_guards =
      let token = extract_token_from_header (get_header "Authorization" r.header) in
      elim (Bool-cases (token == "")) [
        | inl missing ↦
            inl (rw missing refl, inl (http_error "Unauthorized" 401 w, rw missing refl))
        | inr given ↦ elim (Option-cases (verify token world)) [
          | inl panic ↦ inl (rw given (rw panic refl), inr panic)
          | inr (err e, failing) ↦ inl (
            rw given (rw failing refl),
            inl (http_error "Unauthorized" 401 w, rw given (rw failing refl)),
          )
          | inr (ok (user, sub), accepted) ↦ inr (user, sub, accepted, rw given (rw accepted refl))
        ]
      ]
