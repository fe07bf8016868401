-- ===== src/Pages.antt =====
-- src/web/admin.rs: the administrator's pages that only show data, each by the fields of its template.
-- The style sheet, which every page has, and the rendering of the templates are not modelled. The
-- login of each page but the first two is checked before it runs (Web/Extract); `csrf` is the token of
-- the session. A clock reading is in nanoseconds.
pub mod Turned
pub mod Listed
pub mod Tokens
use didicafe.Base.{
  ℕ, ◌<◌, Bool, true, false, ◌||◌, Option, none, some, List, ◌∷◌, if◌then◌else◌, ◌==◌, Str, lit,
  str_eq,
}
use didicafe.Base.Int.{ℤ}
use didicafe.RateLimit.{IpAddr}
use didicafe.Config.{Config, PortalConfig}
use didicafe.Csrf.{get_or_generate}
use didicafe.AdminSession.{AdminSessionStore}
use didicafe.AdminSession as Sessions
use didicafe.Db.Models.{Session, AuditLogEntry}
use didicafe.Db.Sessions.{get_live_sessions}
use didicafe.Db.Audit.{get_audit_log_paged}
use didicafe.Db.Stats.{DailyStats, get_daily_stats}
use didicafe.Firewall.{Firewall}
use didicafe.World.{query}
use didicafe.Login.{AdminState, extract_cookie, admin_cookie_name}
use didicafe.Web.{Response, redirect_to}
use didicafe.Web.Input.{ManageQuery, parse_token_query, page_number}
use didicafe.Web.Handler.{Handler, pure, ◌>>=◌, internally}
use didicafe.Manage.{ManagePage, load_manage_data}
use didicafe.Settings.{reread, portal_config_from_db}

abbrev pub audit_per_page : ℕ
audit_per_page = 50

pub record LoginTemplate : Type 0 where
  pub error : Option Str
  pub csrf_token : Str
  pub cafe_name : Str

pub record DashboardTemplate : Type 0 where
  pub stats : DailyStats
  pub active_sessions : List Session
  pub csrf_token : Str
  pub cafe_name : Str

pub record ManageTemplate : Type 0 where
  pub page : ManagePage
  pub csrf_token : Str
  pub cafe_name : Str

pub record AuditPage : Type 0 where
  pub entries : List AuditLogEntry
  pub total : ℕ
  pub page : ℕ
  pub per_page : ℕ

pub record AuditTemplate : Type 0 where
  pub audit_page : AuditPage
  pub cafe_name : Str

pub record SettingsTemplate : Type 0 where
  pub current : PortalConfig
  pub message : Option Str
  pub csrf_token : Str

-- GET /admin/: `store` is the store of the administrators' sessions.
abbrev pub to_dashboard : Bool × AdminSessionStore → Response × AdminSessionStore
to_dashboard (true, store) = (redirect_to (lit "/admin"), store)
to_dashboard (false, store) = (redirect_to (lit "/admin/login"), store)

abbrev pub checked : Option Str → AdminSessionStore → ℕ → Response × AdminSessionStore
checked none store now = (redirect_to (lit "/admin/login"), store)
checked (some session_id) store now = to_dashboard (Sessions.validate store session_id now)

unfoldable pub redirect_to_login : Option Str → AdminSessionStore → ℕ → Response × AdminSessionStore
redirect_to_login cookie_header store now =
    checked (extract_cookie cookie_header admin_cookie_name) store now

module _ (fw : Firewall) (config : Config) where
  -- `to_string` is `IpAddr::to_string`, `fresh` the token that may be drawn.
  unfoldable pub login_page :
      (IpAddr → Str) → IpAddr → ℕ → Str → AdminState fw → LoginTemplate × AdminState fw
  login_page to_string ip instant fresh app =
      let (csrf_token, store) = get_or_generate app.login_csrf_store (to_string ip) instant fresh in
      let (portal, w) = portal_config_from_db fw config app.world in
      (
        record { error = none; csrf_token = csrf_token; cafe_name = portal.cafe_name },
        record app { login_csrf_store = store; world = w },
      )

  unfoldable pub dashboard : Str → ℕ → Handler fw DashboardTemplate
  dashboard csrf now = do
    stats ← internally (query (λ db. get_daily_stats db now))
    active_sessions ← internally (query (λ db. get_live_sessions db now))
    portal ← reread fw config
    pure (record {
      stats = stats;
      active_sessions = active_sessions;
      csrf_token = csrf;
      cafe_name = portal.cafe_name;
    })

  -- `to_string` prints a number.
  unfoldable pub manage_page : (ℕ → Str) → Str → ManageQuery → ℕ → Handler fw ManageTemplate
  manage_page to_string csrf request now = do
    let (status_filter, page) = parse_token_query request
    shown ← load_manage_data fw config to_string status_filter page none now
    portal ← reread fw config
    pure (record { page = shown; csrf_token = csrf; cafe_name = portal.cafe_name })

  unfoldable pub audit_page : Option ℤ → Handler fw AuditTemplate
  audit_page requested = do
    let page = page_number requested
    found ← internally (query (λ db. get_audit_log_paged db page audit_per_page))
    portal ← reread fw config
    pure (record {
      audit_page = record {
        entries = found.0;
        total = found.1;
        page = page;
        per_page = audit_per_page;
      };
      cafe_name = portal.cafe_name;
    })

  unfoldable pub settings_page : Str → Handler fw SettingsTemplate
  settings_page csrf = do
    current ← reread fw config
    pure (record { current = current; message = none; csrf_token = csrf })
