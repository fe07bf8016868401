-- ===== src/Portal.antt =====
-- src/web/portal.rs: the client's pages: the form's handler, which joins the form tokens, the limiter,
-- the codes and the sessions, and the status of a client. src/services/token.rs: the lookup of a code.
-- `IpAddr::to_string` and `str::to_uppercase` are parameters. `instant` is the monotonic clock that
-- the stores read, in nanoseconds, once for a request, and `clock` has the readings of the wall clock
-- that creating or migrating the session takes; `fresh` is the random token that the request may generate. What the form's page shows besides its message
-- and token is in Portal/Pages, with the pages that only show data.
pub mod Auth
pub mod Race
pub mod Status
pub mod Price
pub mod Pages
use didicafe.Base.{
  ℕ, suc, ◌+◌, ◌-◌, Bool, true, false, not, ◌&&◌, ◌||◌, Option, none, some, [], ◌∷◌, ◌++◌, ltb,
  if◌then◌else◌, Str, lit, Result, ok, err, is_whitespace,
}
use didicafe.RateLimit.{
  IpAddr, RateLimiter, RateLimitResult, allowed, throttled, banned, check_and_record,
}
use didicafe.Csrf.{PortalCsrfStore, generate, validate}
use didicafe.TokenCode.{TokenConfig, validate_token_format}
use didicafe.Db.Models.{Token, TokenStatus, token_status_beq, remaining_seconds}
use didicafe.Db.Tables.{Database}
use didicafe.Db.Tokens.{get_token_by_code}
use didicafe.Db.Sessions.{get_session_by_mac}
use didicafe.Firewall.{Firewall}
use didicafe.World.{World, ServiceError, query}
use didicafe.SessionService.{Clock, create_session, migrate_session}

pub data TokenLookup : Type 0 where
  unused_token : Token → TokenLookup
  active_token : Token → TokenLookup
  invalid_token : TokenLookup

abbrev pub classify : Option Token → TokenLookup
classify none = invalid_token
classify (some t) =
    if token_status_beq t.status TokenStatus.unused
    then unused_token t
    else if token_status_beq t.status TokenStatus.active
    then active_token t
    else invalid_token

unfoldable pub validate_token : Database → Str → TokenLookup
validate_token db code = classify (get_token_by_code db code)

abbrev pub trim_start : Str → Str
trim_start [] = []
trim_start (c ∷ s) = if is_whitespace c then trim_start s else c ∷ s

abbrev pub trim_end : Str → Str
trim_end [] = []
trim_end (c ∷ s) = elim (trim_end s) [
  | [] ↦ if is_whitespace c then [] else c ∷ []
  | d ∷ rest ↦ c ∷ d ∷ rest
]

-- `str::trim`
abbrev pub trim : Str → Str
trim s = trim_end (trim_start s)

pub record ClientInfo : Type 0 where
  pub ip : IpAddr
  pub mac : Str

pub record AuthForm : Type 0 where
  pub token : Str
  pub csrf_token : Str

-- A redirection to `/portal/success`; the form again, with a message and a new form token; the answer
-- 429, with the seconds of `Retry-After`; the answer 500.
pub data Response : Type 0 where
  success : Response
  form_page : Str → Str → Response
  rate_limited : Option ℕ → Response
  internal_error : Response

-- The fields of `AppState` that the handler uses.
pub record AppState (fw : Firewall) : Type 0 where
  pub world : World fw
  pub rate_limiter : RateLimiter
  pub portal_csrf_store : PortalCsrfStore

-- A request: who sends it, what it submits, its clock readings and its random token.
pub record Request : Type 0 where
  pub client : ClientInfo
  pub form : AuthForm
  pub instant : ℕ
  pub clock : Clock
  pub fresh : Str

module _ {fw : Firewall} where
  -- The form again: `portal_template(&state, Some(message), state.portal_csrf_store.generate(…))`
  unfoldable pub retry_page : Request → Str → AppState fw → Response × AppState fw
  retry_page r message app =
      let (token, store) = generate app.portal_csrf_store r.client.mac r.instant r.fresh in
      (form_page message token, record app { portal_csrf_store = store })

  -- What a session operation's result leads to.
  abbrev pub finish :
      Request → Str → Result ServiceError ℕ × World fw → AppState fw → Response × AppState fw
  finish r message (ok id, w) app = (success, record app { world = w })
  finish r message (err e, w) app = retry_page r message (record app { world = w })

-- `form.token.trim().to_uppercase()`
abbrev pub code_of : (Str → Str) → Request → Str
code_of to_uppercase r = to_uppercase (trim r.form.token)

module _ (fw : Firewall) (to_string : IpAddr → Str) (to_uppercase : Str → Str)
    (config : TokenConfig) where
  -- The `match` on the lookup.
  unfoldable pub serve : Request → TokenLookup → AppState fw → Response × AppState fw
  serve r (unused_token t) app =
      finish r (lit "portal.error.internal")
        (create_session fw t.id t.duration_minutes r.client.mac (to_string r.client.ip) r.clock
          app.world)
        app
  serve r (active_token t) app =
      finish r (lit "portal.error.expired")
        (migrate_session fw t.id r.client.mac (to_string r.client.ip) r.clock app.world) app
  serve r invalid_token app = retry_page r (lit "portal.error.invalid") app

  abbrev pub looked_up :
      Request → Result ServiceError TokenLookup × World fw → AppState fw → Response × AppState fw
  looked_up r (ok lookup, w) app = serve r lookup (record app { world = w })
  looked_up r (err e, w) app = (internal_error, record app { world = w })

  abbrev pub formatted : Request → Result Str (Unit {0}) → AppState fw → Response × AppState fw
  formatted r (err e) app = retry_page r (lit "portal.error.invalid") app
  formatted r (ok u) app =
      looked_up r (query (λ db. validate_token db (code_of to_uppercase r)) app.world) app

  -- From the check of the format on.
  unfoldable pub check_code : Request → AppState fw → Response × AppState fw
  check_code r app = formatted r (validate_token_format config (code_of to_uppercase r)) app

  -- The `match` on the limiter's answer.
  abbrev pub limited : Request → RateLimitResult → AppState fw → Response × AppState fw
  limited r allowed app = check_code r app
  limited r throttled app = (rate_limited none, app)
  limited r (banned retry_after_seconds) app = (rate_limited (some retry_after_seconds), app)

  unfoldable pub check_rate : Request → AppState fw → Response × AppState fw
  check_rate r app =
      let (result, limiter) = check_and_record app.rate_limiter r.client.ip r.instant in
      limited r result (record app { rate_limiter = limiter })

  -- `if !state.portal_csrf_store.validate(…)`
  abbrev pub submitted : Request → Bool → AppState fw → Response × AppState fw
  submitted r false app = retry_page r (lit "portal.error.csrf") app
  submitted r true app = check_rate r app

  unfoldable pub portal_auth : Request → AppState fw → Response × AppState fw
  portal_auth r app =
      let (accepted, store) =
        validate app.portal_csrf_store r.client.mac r.form.csrf_token r.instant in
      submitted r accepted (record app { portal_csrf_store = store })

-- `PortalStatusResponse`
pub record PortalStatusResponse : Type 0 where
  pub connected : Bool
  pub remaining_seconds : ℕ

unfoldable pub portal_status : Database → Str → ℕ → PortalStatusResponse
portal_status db mac now = elim (get_session_by_mac db mac now) [
  | some s ↦
      let remaining = remaining_seconds s.expires_at now in
      record { connected = ltb 0 remaining; remaining_seconds = remaining }
  | none ↦ record { connected = false; remaining_seconds = 0 }
]

abbrev pub compute_total_seconds : ℕ → ℕ → ℕ
compute_total_seconds started_at expires_at = expires_at - started_at

-- The fields of `StatusTemplate` that depend on the session.
pub record StatusPage : Type 0 where
  pub connected : Bool
  pub remaining_seconds : ℕ
  pub total_seconds : ℕ
  pub plan_name : Str

-- `Session::plan_name`
abbrev pub or_empty : Option Str → Str
or_empty none = []
or_empty (some s) = s

abbrev pub absent_page : StatusPage
absent_page = record { connected = false; remaining_seconds = 0; total_seconds = 0; plan_name = [] }

unfoldable pub status_page : Database → Str → ℕ → StatusPage
status_page db mac now = elim (get_session_by_mac db mac now) [
  | none ↦ absent_page
  | some s ↦
      if ltb 0 (remaining_seconds s.expires_at now)
      then record {
        connected = true;
        remaining_seconds = remaining_seconds s.expires_at now;
        total_seconds = compute_total_seconds s.started_at s.expires_at;
        plan_name = or_empty s.plan_name;
      }
      else absent_page
]
