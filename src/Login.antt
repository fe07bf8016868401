-- ===== src/Login.antt =====
-- src/web/admin.rs: the login and the logout of the administrator; src/web/extractors.rs: the cookie.
-- Parameters: `IpAddr::to_string` and the password check, which is a library's. The MAC that the
-- neighbour lookup finds, the clock readings and the random tokens stand in the request. What a page
-- shows besides its message and token is in Pages, or not modelled.
pub mod Access
use didicafe.Base.{
  ℕ, ◌+◌, ◌*◌, Bool, true, false, not, ◌&&◌, ◌||◌, Option, none, some, List, [], ◌∷◌, ◌++◌, ltb,
  eqb, if◌then◌else◌, ◌==◌, Str, lit, str_eq, byte_len, strip_prefix,
}
use didicafe.RateLimit.{
  IpAddr, RateLimiter, RateLimitResult, allowed, throttled, banned, check_and_record,
}
use didicafe.Csrf.{PortalCsrfStore}
use didicafe.Csrf as Csrf
use didicafe.Config.{Config}
use didicafe.AdminSession.{AdminSessionStore}
use didicafe.AdminSession as Sessions
use didicafe.Db.Audit.{audit_log}
use didicafe.Firewall.{Firewall}
use didicafe.World.{World, update, call, ignore}
use didicafe.Portal.{trim}

abbrev pub admin_cookie_name : Str
admin_cookie_name = lit "didicafe_admin"

abbrev pub admin_authorize_timeout_secs : ℕ
admin_authorize_timeout_secs = 7 * 24 * 3600

abbrev pub max_username_len : ℕ
max_username_len = 256

abbrev pub max_password_len : ℕ
max_password_len = 1024

-- `str::split` by a character: the part up to the first one, and the others.
abbrev pub split : ℕ → Str → Str × List Str
split c [] = ([], [])
split c (d ∷ s) =
    let (part, parts) = split c s in if eqb d c then ([], part ∷ parts) else (d ∷ part, parts)

-- The loop over the pairs.
unfoldable pub cookie_in : Str → List Str → Option Str
cookie_in prefix [] = none
cookie_in prefix (pair ∷ pairs) = elim (strip_prefix prefix (trim pair)) [
  | some value ↦ some value
  | none ↦ cookie_in prefix pairs
]

unfoldable pub extract_cookie : Option Str → Str → Option Str
extract_cookie none name = none
extract_cookie (some header) name =
    let (pair, pairs) = split b';' header in cookie_in (name ++ b'=' ∷ []) (pair ∷ pairs)

abbrev pub secure_flag : Bool → Str
secure_flag tls_enabled = if tls_enabled then lit "; Secure" else []

unfoldable pub session_cookie : Str → Bool → Str
session_cookie session_id tls_enabled =
    admin_cookie_name
    ++ (b'='
        ∷ (session_id ++ (lit "; HttpOnly; SameSite=Strict; Path=/" ++ secure_flag tls_enabled)))

unfoldable pub clear_session_cookie : Bool → Str
clear_session_cookie tls_enabled =
    admin_cookie_name
    ++ (lit "=; HttpOnly; SameSite=Strict; Path=/; Max-Age=0" ++ secure_flag tls_enabled)

pub record LoginForm : Type 0 where
  pub username : Str
  pub password : Str
  pub csrf_token : Str

pub record LoginRequest : Type 0 where
  pub ip : IpAddr
  pub cookie_header : Option Str
  pub form : LoginForm
  -- the answer of `arp::lookup_mac`
  pub client_mac : Option Str
  pub instant : ℕ
  pub now : ℕ
  -- the form token, the session's identifier and its form token, should they be generated
  pub fresh : Str
  pub session_id : Str
  pub session_csrf : Str

-- The redirection with its cookie; the form again, with a message and a new token; the same under the
-- status 429, with the seconds of `Retry-After`.
pub data LoginResponse : Type 0 where
  logged_in : Str → LoginResponse
  login_form : Str → Str → LoginResponse
  too_many_requests : Option ℕ → Str → LoginResponse

-- The fields of `AppState` that the handlers use.
pub record AdminState (fw : Firewall) : Type 0 where
  pub world : World fw
  pub admin_rate_limiter : RateLimiter
  pub login_csrf_store : PortalCsrfStore
  pub admin_sessions : AdminSessionStore

module _ (fw : Firewall) (to_string : IpAddr → Str) (verify_password : Str → Str → Bool)
    (config : Config) where
  -- `state.login_csrf_store.generate(&ip_key)`, in an answer
  abbrev pub with_token :
      LoginRequest → (Str → LoginResponse) → AdminState fw → LoginResponse × AdminState fw
  with_token r answer app =
      let (token, store) = Csrf.generate app.login_csrf_store (to_string r.ip) r.instant r.fresh in
      (answer token, record app { login_csrf_store = store })

  abbrev pub log_attempt : LoginRequest → Str → AdminState fw → AdminState fw
  log_attempt r action app = record app {
    world =
        (ignore (update (λ db. audit_log db r.form.username action none none none r.now))
          app.world).1;
  }

  -- The session that the request's cookie names is dropped.
  abbrev pub drop_old : Option Str → AdminState fw → AdminState fw
  drop_old none app = app
  drop_old (some old_id) app = record app {
    admin_sessions = Sessions.remove app.admin_sessions old_id;
  }

  -- The manager's device is let through; a failure is only logged.
  abbrev pub authorize_manager : LoginRequest → Option Str → AdminState fw → AdminState fw
  authorize_manager r none app = app
  authorize_manager r (some mac) app = record app {
    world =
        (call (fw.authorize_client mac (to_string r.ip) admin_authorize_timeout_secs) app.world).1;
  }

  unfoldable pub grant : LoginRequest → AdminState fw → LoginResponse × AdminState fw
  grant r app =
      let dropped =
        drop_old (extract_cookie r.cookie_header admin_cookie_name)
          (log_attempt r (lit "login") app) in
      let let_through = authorize_manager r r.client_mac dropped in
      let (session_id, sessions) =
        Sessions.create let_through.admin_sessions r.session_id r.session_csrf r.instant in
      (
        logged_in (session_cookie session_id config.tls.enabled),
        record let_through { admin_sessions = sessions },
      )

  -- The logged name is cut to 256 bytes, and is not longer here.
  abbrev pub decide : LoginRequest → Bool → AdminState fw → LoginResponse × AdminState fw
  decide r true app = grant r app
  decide r false app =
      with_token r (login_form (lit "admin.login.error")) (log_attempt r (lit "login_failed") app)

  abbrev pub measured : LoginRequest → Bool → AdminState fw → LoginResponse × AdminState fw
  measured r true app = with_token r (login_form (lit "admin.login.error")) app
  measured r false app =
      decide r
        ((r.form.username == config.admin.username)
          && verify_password r.form.password config.admin.password_hash)
        app

  -- From the length limits on.
  unfoldable pub check_credentials : LoginRequest → AdminState fw → LoginResponse × AdminState fw
  check_credentials r app =
      measured r
        (ltb max_username_len (byte_len r.form.username)
          || ltb max_password_len (byte_len r.form.password))
        app

  abbrev pub login_limited :
      LoginRequest → RateLimitResult → AdminState fw → LoginResponse × AdminState fw
  login_limited r (banned retry_after_seconds) app =
      with_token r (too_many_requests (some retry_after_seconds)) app
  login_limited r throttled app = with_token r (too_many_requests none) app
  login_limited r allowed app = check_credentials r app

  abbrev pub login_submitted : LoginRequest → Bool → AdminState fw → LoginResponse × AdminState fw
  login_submitted r false app = with_token r (login_form (lit "admin.login.error.csrf")) app
  login_submitted r true app =
      let (result, limiter) = check_and_record app.admin_rate_limiter r.ip r.instant in
      login_limited r result (record app { admin_rate_limiter = limiter })

  unfoldable pub login_submit : LoginRequest → AdminState fw → LoginResponse × AdminState fw
  login_submit r app =
      let (accepted, store) =
        Csrf.validate app.login_csrf_store (to_string r.ip) r.form.csrf_token r.instant in
      login_submitted r accepted (record app { login_csrf_store = store })

  -- The answer is the redirection with the cleared cookie.
  unfoldable pub logout : Option Str → AdminState fw → Str × AdminState fw
  logout cookie_header app = (
    clear_session_cookie config.tls.enabled,
    drop_old (extract_cookie cookie_header admin_cookie_name) app,
  )
