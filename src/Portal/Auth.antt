-- ===== src/Portal/Auth.antt =====
-- src/web/portal.rs: when the form's handler serves a code, and what it leaves when it does not.
use didicafe.Base.{
  pair_eq, ℕ, ◌≡◌, ◌≢◌, ◌∙◌, refl, ap, Bool, true, false, Str, Result, ok, err, arith, List,
}
use didicafe.RateLimit.{IpAddr, RateLimitResult, allowed, throttled, banned, check_and_record}
use didicafe.Csrf.{validate}
use didicafe.TokenCode.{TokenConfig, validate_token_format}
use didicafe.Db.Tables.{Database, TokenRow}
use didicafe.Firewall.{Firewall}
use didicafe.World.{World, ServiceError, query, query-same, query_ok}
use didicafe.SessionService.{create_session, migrate_session}
use didicafe.SessionService.Create.{failed-tokens}
use didicafe.SessionService.Migrate.{migrate-tokens}
use didicafe.Portal.{
  AppState, Request, Response, success, TokenLookup, unused_token, active_token, invalid_token,
  validate_token, retry_page, finish, serve, submitted, formatted, looked_up, check_code,
  check_rate, limited, portal_auth, code_of,
}

abbrev pub is_known : TokenLookup → Bool
is_known (unused_token t) = true
is_known (active_token t) = true
is_known invalid_token = false

abbrev pub tokens_of : {fw : Firewall} → Response × AppState fw → List TokenRow
tokens_of result = result.1.world.db.tokens

finish-tokens :
    {fw : Firewall} (r : Request) (message : Str) (result : Result ServiceError ℕ × World fw)
    (app : AppState fw)
    → ((e : ServiceError) → result.0 ≡ err e → result.1.db.tokens ≡ app.world.db.tokens)
    → (finish r message result app).0 ≢ success
    → tokens_of (finish r message result app) ≡ app.world.db.tokens
unfolding retry_page
finish-tokens r message (ok id, w) app kept h = absurd (h refl)
finish-tokens r message (err e, w) app kept h = kept e refl

module _ (fw : Firewall) (to_string : IpAddr → Str) (to_uppercase : Str → Str)
    (config : TokenConfig) where
  abbrev answer : Request → AppState fw → Response × AppState fw
  answer = portal_auth fw to_string to_uppercase config

  serve-tokens :
      (r : Request) (lookup : TokenLookup) (app : AppState fw)
      → (serve fw to_string to_uppercase config r lookup app).0 ≢ success
      → tokens_of (serve fw to_string to_uppercase config r lookup app) ≡ app.world.db.tokens
  unfolding serve retry_page
  serve-tokens r (unused_token t) app h =
      finish-tokens r _
        (create_session fw t.id t.duration_minutes r.client.mac (to_string r.client.ip) r.clock
          app.world)
        app
        (λ e q.
          failed-tokens fw t.id t.duration_minutes r.client.mac (to_string r.client.ip) r.clock
            app.world _ e (pair_eq _ q))
        h
  serve-tokens r (active_token t) app h =
      finish-tokens r _
        (migrate_session fw t.id r.client.mac (to_string r.client.ip) r.clock app.world) app
        (λ e q.
          migrate-tokens fw t.id r.client.mac (to_string r.client.ip) r.clock app.world _ (err e)
            (pair_eq _ q))
        h
  serve-tokens r invalid_token app h = refl

  looked_up-tokens :
      (r : Request) (result : Result ServiceError TokenLookup × World fw) (app : AppState fw)
      → result.1.db ≡ app.world.db
      → (looked_up fw to_string to_uppercase config r result app).0 ≢ success
      → tokens_of (looked_up fw to_string to_uppercase config r result app) ≡ app.world.db.tokens
  looked_up-tokens r (ok lookup, w) app same h =
      serve-tokens r lookup (record app { world = w }) h ∙ ap (λ db. db.tokens) same
  looked_up-tokens r (err e, w) app same h = ap (λ db. db.tokens) same

  formatted-tokens :
      (r : Request) (checked : Result Str (Unit {0})) (app : AppState fw)
      → (formatted fw to_string to_uppercase config r checked app).0 ≢ success
      → tokens_of (formatted fw to_string to_uppercase config r checked app) ≡ app.world.db.tokens
  unfolding retry_page
  formatted-tokens r (ok u) app h =
      looked_up-tokens r _ app
        (query-same (λ db. validate_token db (code_of to_uppercase r)) app.world).0 h
  formatted-tokens r (err e) app h = refl

  limited-tokens :
      (r : Request) (result : RateLimitResult) (app : AppState fw)
      → (limited fw to_string to_uppercase config r result app).0 ≢ success
      → tokens_of (limited fw to_string to_uppercase config r result app) ≡ app.world.db.tokens
  unfolding check_code
  limited-tokens r allowed app h = formatted-tokens r _ app h
  limited-tokens r throttled app h = refl
  limited-tokens r (banned n) app h = refl

  submitted-tokens :
      (r : Request) (accepted : Bool) (app : AppState fw)
      → (submitted fw to_string to_uppercase config r accepted app).0 ≢ success
      → tokens_of (submitted fw to_string to_uppercase config r accepted app) ≡ app.world.db.tokens
  unfolding check_rate retry_page
  submitted-tokens r true app h = limited-tokens r _ _ h
  submitted-tokens r false app h = refl

  -- Unless the answer is the redirection to the success page, a request leaves every token as it was:
  -- no refusal and no failure, at whatever step, consumes a code.
  pub refused-tokens :
      (r : Request) (app : AppState fw)
      → (answer r app).0 ≢ success
      → tokens_of (answer r app) ≡ app.world.db.tokens
  unfolding portal_auth
  refused-tokens r app h = submitted-tokens r _ _ h

  serve-success :
      (r : Request) (lookup : TokenLookup) (app : AppState fw)
      → (serve fw to_string to_uppercase config r lookup app).0 ≡ success
      → is_known lookup ≡ true
  unfolding serve retry_page
  serve-success r (unused_token t) app h = refl
  serve-success r (active_token t) app h = refl
  serve-success r invalid_token app h = ground arith

  looked_up-success :
      (r : Request) (result : Result ServiceError TokenLookup × World fw) (lookup : TokenLookup)
      (app : AppState fw)
      → ((a : TokenLookup) → result.0 ≡ ok a → a ≡ lookup)
      → (looked_up fw to_string to_uppercase config r result app).0 ≡ success
      → is_known lookup ≡ true
  looked_up-success r (ok a, w) lookup app same h =
      rw (← same a refl) (serve-success r a (record app { world = w }) h)
  looked_up-success r (err e, w) lookup app same h = ground arith

  formatted-success :
      (r : Request) (checked : Result Str (Unit {0})) (app : AppState fw)
      → (formatted fw to_string to_uppercase config r checked app).0 ≡ success
      → (checked ≡ ok tt) × (is_known (validate_token app.world.db (code_of to_uppercase r)) ≡ true)
  unfolding retry_page
  formatted-success r (ok u) app h =
      let lookup = λ (db : Database). validate_token db (code_of to_uppercase r) in
      (
        refl,
        looked_up-success r (query lookup app.world) (lookup app.world.db) app
            (query_ok lookup app.world) h,
      )
  formatted-success r (err e) app h = ground arith

  limited-success :
      (r : Request) (result : RateLimitResult) (app : AppState fw)
      → (limited fw to_string to_uppercase config r result app).0 ≡ success
      → (result ≡ allowed)
        × (validate_token_format config (code_of to_uppercase r) ≡ ok tt)
        × (is_known (validate_token app.world.db (code_of to_uppercase r)) ≡ true)
  unfolding check_code
  limited-success r allowed app h =
      let (format, known) = formatted-success r _ app h in (refl, format, known)
  limited-success r throttled app h = ground arith
  limited-success r (banned n) app h = ground arith

  submitted-success :
      (r : Request) (accepted : Bool) (app : AppState fw)
      → (submitted fw to_string to_uppercase config r accepted app).0 ≡ success
      → (accepted ≡ true)
        × ((check_and_record app.rate_limiter r.client.ip r.instant).0 ≡ allowed)
        × (validate_token_format config (code_of to_uppercase r) ≡ ok tt)
        × (is_known (validate_token app.world.db (code_of to_uppercase r)) ≡ true)
  unfolding check_rate retry_page
  submitted-success r true app h =
      let (free, format, known) = limited-success r _ _ h in (refl, free, format, known)
  submitted-success r false app h = ground arith

  -- Whoever is redirected to the success page submitted the form token of its MAC, was allowed by the
  -- limiter, and sent a code that is in the format and that the database knows as unused or active.
  pub served :
      (r : Request) (app : AppState fw)
      → (answer r app).0 ≡ success
      → ((validate app.portal_csrf_store r.client.mac r.form.csrf_token r.instant).0 ≡ true)
        × ((check_and_record app.rate_limiter r.client.ip r.instant).0 ≡ allowed)
        × (validate_token_format config (code_of to_uppercase r) ≡ ok tt)
        × (is_known (validate_token app.world.db (code_of to_uppercase r)) ≡ true)
  unfolding portal_auth
  served r app h = submitted-success r _ _ h
