-- ===== src/Startup/Checks.antt =====
-- What has been checked once the server runs.
use landmark_api.Common.{
  ℕ, ◌+◌, ◌≤◌, ◌≡◌, ◌≢◌, refl, ap, String, true, Option, none, some, List, ◌∷◌, ok, bind-ok,
  bind-map_err, ok-injective, Option-cases, ◌∙◌, Result-cases, Bool-cases, inl, inr, arith, eq_iff,
}
use mathlib.Core.Path.{subst}
use landmark_api.Common.Text.{is_empty, ◌+++◌}
use landmark_api.Models.{new_rate_limit_config}
use landmark_api.Operations.{new_cache_config}
use landmark_api.RateLimit.{is_ip_rate_limited, minute}
use landmark_api.RateLimit.Bursts.{History, instants, limits_after, shipped-always_limited}
use landmark_api.Startup.{
  Platform, Server, RedisOptions, FileUploadHandler, getenv, init_db, auto_migrate, init_search,
  init_jwt_secret, new_redis_cache_service, new_file_upload_handler, start_up, unless,
}

module _ {D S : Type 0} (platform : Platform D S) where
  pub record IsChecked (s : Server D S) : Type 0 where
    pub opened : D
    pub database_url : getenv platform "DATABASE_URL" ≢ ""
    pub connected : platform.open_db (getenv platform "DATABASE_URL") ≡ ok opened
    pub migrated : platform.auto_migrate opened ≡ none
    pub prepared : init_search platform opened ≡ ok s.db
    pub cached : platform.ping s.cache ≡ none
    pub signed : s.jwt_secret ≡ getenv platform "JWT_SECRET"
    pub secret : s.jwt_secret ≢ ""
    pub limits : s.rate_limit ≡ new_rate_limit_config
    pub stored : platform.new_session "eu-north-1" ≡ ok s.files.s3_client

  unless-ok : {A : Type 0} (o : Option String) (a b : A) → unless o a ≡ ok b → (o ≡ none) × (a ≡ b)
  unless-ok none a b h = (refl, ground arith)
  unless-ok (some m) a b h = ground arith

  init_db-ok :
      (db : D)
      → init_db platform ≡ ok db
      → (getenv platform "DATABASE_URL" ≢ "")
        × (platform.open_db (getenv platform "DATABASE_URL") ≡ ok db)
        × (platform.auto_migrate db ≡ none)
  unfolding init_db auto_migrate
  init_db-ok db h =
      let url = getenv platform "DATABASE_URL" in
      elim (Bool-cases (is_empty url)) [
        | inl empty ↦ ground arith
        | inr set ↦ elim (Result-cases (platform.open_db url)) [
          | inr (m, e) ↦ ground arith
          | inl (db', e) ↦ elim (Option-cases (platform.auto_migrate db')) [
            | inr (m, f) ↦ ground arith
            | inl f ↦
                let same : db' ≡ db = ground arith in
                subst
                  (λ d.
                    (url ≢ "") × (platform.open_db url ≡ ok d) × (platform.auto_migrate d ≡ none))
                  same (ground (arith, eq_iff url ""), e, f)
          ]
        ]
      ]

  ping-ok :
      (cache : RedisOptions)
      → new_redis_cache_service platform.ping (new_cache_config platform.lookup_env) ≡ ok cache
      → platform.ping cache ≡ none
  unfolding new_redis_cache_service
  ping-ok cache h =
      let cfg = new_cache_config platform.lookup_env in
      let options : RedisOptions = record {
        addr = cfg.redis_host +++ (":" +++ cfg.redis_port);
        password = cfg.redis_password;
        db = cfg.redis_db;
      } in
      elim (Option-cases (platform.ping options)) [
        | inr (m, e) ↦ ground arith
        | inl e ↦
            let same : options ≡ cache = ground arith in subst (λ o. platform.ping o ≡ none) same e
      ]

  session-ok :
      (files : FileUploadHandler S)
      → new_file_upload_handler platform.new_session "eu-north-1" "properties-photos" ≡ ok files
      → platform.new_session "eu-north-1" ≡ ok files.s3_client
  unfolding new_file_upload_handler
  session-ok files h = elim (Result-cases (platform.new_session "eu-north-1")) [
    | inr (m, e) ↦ ground arith
    | inl (client, e) ↦ let same : client ≡ files.s3_client = ground (arith, h) in e ∙ ap ok same
  ]

  init_jwt_secret-ok :
      (secret : String)
      → init_jwt_secret platform ≡ ok secret
      → (secret ≡ getenv platform "JWT_SECRET") × (secret ≢ "")
  unfolding init_jwt_secret
  init_jwt_secret-ok secret h = ground (arith, eq_iff (getenv platform "JWT_SECRET") "")

  pub start_up-IsChecked : (s : Server D S) → start_up platform ≡ ok s → IsChecked s
  unfolding start_up
  start_up-IsChecked s h =
      let (u, logged, h1) = bind-ok (unless platform.open_log tt) _ s h in
      let (db, opened, h2) = bind-map_err _ (init_db platform) _ s h1 in
      let (v, pooled, h3) = bind-map_err _ (unless (platform.sql_db db) tt) _ s h2 in
      let (cache, pinged, h4) =
        bind-map_err _
          (new_redis_cache_service platform.ping (new_cache_config platform.lookup_env)) _ s h3 in
      let (secret, signed, h5) = bind-ok (init_jwt_secret platform) _ s h4 in
      let (db', prepared, h6) = bind-map_err _ (init_search platform db) _ s h5 in
      let (files, stored, h7) =
        bind-map_err _
          (new_file_upload_handler platform.new_session "eu-north-1" "properties-photos") _ s h6 in
      let (named, connected, migrated) = init_db-ok db opened in
      let (from, filled) = init_jwt_secret-ok secret signed in
      subst IsChecked (ok-injective _ s _ refl h7) (record {
        opened = db;
        database_url = named;
        connected = connected;
        migrated = migrated;
        prepared = prepared;
        cached = ping-ok cache pinged;
        signed = from;
        secret = filled;
        limits = refl;
        stored = session-ok files stored;
      })

  -- Once the server runs, every request of an address that comes within a minute of its last one is
  -- limited, whatever the environment is.
  pub start_up-always_limited :
      (s : Server D S) (now last : ℕ) (ip : String) (h : History) (ts : List ℕ)
      → start_up platform ≡ ok s
      → instants ip h ≡ last ∷ ts
      → now ≤ last + minute
      → (is_ip_rate_limited s.rate_limit now ip (limits_after s.rate_limit h)).0 ≡ true
  start_up-always_limited s now last ip h ts up e soon =
      rw (start_up-IsChecked s up).limits (shipped-always_limited now last ip h ts e soon)
