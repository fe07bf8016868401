-- ===== src/Web/Routes.antt =====
-- src/web/mod.rs and the `routes` functions of src/web/: which paths have which handlers, and the three
-- routers. `dispatch` is axum's: it picks the handler of a table, or redirects to the fallback's path,
-- and serves the files under `/static`.
use didicafe.Base.{ℕ, Option, List, [], ◌∷◌, ◌++◌, Str, lit}
use didicafe.RateLimit.{IpAddr}
use didicafe.Config.{Config}
use didicafe.Web.Layers.{
  Service, security_headers, hsts_header, captive_portal_header, admin_network_filter,
}

pub data Method : Type 0 where
  get post put patch delete : Method

pub data Handler : Type 0 where
  health_check portal_page portal_auth success_page expired_page status_page portal_status : Handler
  privacy_page plans_page redirect_to_portal captive_api : Handler
  dashboard redirect_to_login login_page login_submit logout manage_page manage_submit : Handler
  audit_page settings_page settings_submit : Handler
  list_plans create_plan update_plan toggle_plan_active list_tokens generate_tokens : Handler
  revoke_token list_sessions disconnect_session get_stats get_weekly_stats : Handler

-- A path's pattern, a method and its handler.
abbrev pub Table : Type 0
Table = List (Str × Method × Handler)

unfoldable pub portal_routes : Table
portal_routes =
    (lit "/health", get, health_check)
    ∷ (lit "/portal", get, portal_page)
    ∷ (lit "/portal/auth", post, portal_auth)
    ∷ (lit "/portal/success", get, success_page)
    ∷ (lit "/portal/expired", get, expired_page)
    ∷ (lit "/portal/status", get, status_page)
    ∷ (lit "/portal/status.json", get, portal_status)
    ∷ (lit "/portal/privacy", get, privacy_page)
    ∷ (lit "/portal/plans", get, plans_page)
    ∷ []

unfoldable pub cpd_routes : Table
cpd_routes =
    (lit "/hotspot-detect.html", get, redirect_to_portal)
    ∷ (lit "/generate_204", get, redirect_to_portal)
    ∷ (lit "/connecttest.txt", get, redirect_to_portal)
    ∷ (lit "/check_network_status.txt", get, redirect_to_portal)
    ∷ []

unfoldable pub captive_routes : Table
captive_routes = (lit "/api/captive", get, captive_api) ∷ []

unfoldable pub admin_routes : Table
admin_routes =
    (lit "/admin", get, dashboard)
    ∷ (lit "/admin/", get, redirect_to_login)
    ∷ (lit "/admin/login", get, login_page)
    ∷ (lit "/admin/login", post, login_submit)
    ∷ (lit "/admin/logout", post, logout)
    ∷ (lit "/admin/manage", get, manage_page)
    ∷ (lit "/admin/manage", post, manage_submit)
    ∷ (lit "/admin/audit", get, audit_page)
    ∷ (lit "/admin/settings", get, settings_page)
    ∷ (lit "/admin/settings", post, settings_submit)
    ∷ []

unfoldable pub api_routes : Table
api_routes =
    (lit "/api/plans", get, list_plans)
    ∷ (lit "/api/plans", post, create_plan)
    ∷ (lit "/api/plans/{id}", put, update_plan)
    ∷ (lit "/api/plans/{id}/active", patch, toggle_plan_active)
    ∷ (lit "/api/tokens", get, list_tokens)
    ∷ (lit "/api/tokens/generate", post, generate_tokens)
    ∷ (lit "/api/tokens/{id}", delete, revoke_token)
    ∷ (lit "/api/sessions", get, list_sessions)
    ∷ (lit "/api/sessions/{id}", delete, disconnect_session)
    ∷ (lit "/api/stats", get, get_stats)
    ∷ (lit "/api/stats/weekly", get, get_weekly_stats)
    ∷ []

module _ {S : Type 0} (dispatch : Table → Str → Service S) (to_string : ℕ → Str)
    (from_str : Str → Option Str) (parse_ip : Str → Option IpAddr) (config : Config) where
  unfoldable pub portal_router : Service S
  portal_router = security_headers (
      captive_portal_header to_string from_str config
        (dispatch (portal_routes ++ (cpd_routes ++ captive_routes)) (lit "/portal")))

  unfoldable pub admin_router : Service S
  admin_router = security_headers (
      hsts_header (
        admin_network_filter parse_ip config
          (dispatch (admin_routes ++ api_routes) (lit "/admin/login"))))

  unfoldable pub combined_router : Service S
  combined_router = security_headers (
      captive_portal_header to_string from_str config (
        dispatch (portal_routes ++ (cpd_routes ++ (captive_routes ++ (admin_routes ++ api_routes))))
          (lit "/portal")))
