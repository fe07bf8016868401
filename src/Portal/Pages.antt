-- ===== src/Portal/Pages.antt =====
-- src/web/portal.rs: the pages of the portal that only show data, each by the fields of its template.
-- The style sheet, which every page has, and the rendering of the templates are not modelled. A method
-- of `Database` that only reads is one statement here; `now` is the wall clock and `instant` the
-- monotonic one, in nanoseconds.
pub mod Success
use didicafe.Base.{ℕ, Option, none, some, List, Str, Result, ok, err, ltb, if◌then◌else◌}
use didicafe.Config.{Config, PortalConfig}
use didicafe.Csrf.{get_or_generate}
use didicafe.Db.Models.{Plan, Session, remaining_seconds}
use didicafe.Db.Plans.{list_active_plans}
use didicafe.Db.Sessions.{get_session_by_mac}
use didicafe.Db.Stats.{DailyStats, get_daily_stats}
use didicafe.Firewall.{Firewall}
use didicafe.World.{World, ServiceError, query}
use didicafe.Web.Handler.{Handler, pure, ◌>>=◌, internally}
use didicafe.Settings.{reread, portal_config_from_db}
use didicafe.Portal.{ClientInfo, AppState, compute_total_seconds, or_empty}

pub record PortalTemplate : Type 0 where
  pub error : Option Str
  pub csrf_token : Str
  pub cafe_name : Str
  pub welcome_message : Str

pub record SuccessTemplate : Type 0 where
  pub remaining_seconds : ℕ
  pub total_seconds : ℕ
  pub plan_name : Str
  pub cafe_name : Str

pub record ContactTemplate : Type 0 where
  pub cafe_name : Str
  pub contact_phone : Str
  pub contact_name : Str
  pub contact_hours : Str

pub record PlansTemplate : Type 0 where
  pub plans : List Plan
  pub contact : ContactTemplate

-- The page, or a redirection to `/portal`.
pub data SuccessAnswer : Type 0 where
  shown : SuccessTemplate → SuccessAnswer
  to_portal : SuccessAnswer

abbrev pub contact_of : PortalConfig → ContactTemplate
contact_of portal = record {
  cafe_name = portal.cafe_name;
  contact_phone = portal.contact_phone;
  contact_name = portal.contact_name;
  contact_hours = portal.contact_hours;
}

-- 200, or 503 where the statistics cannot be read.
abbrev pub health_status : Result ServiceError DailyStats → ℕ
health_status (ok stats) = 200
health_status (err e) = 503

module _ (fw : Firewall) (config : Config) where
  unfoldable pub health_check : ℕ → World fw → ℕ × World fw
  health_check now w =
      let (stats, w') = query (λ db. get_daily_stats db now) w in (health_status stats, w')

  unfoldable pub portal_template : Option Str → Str → World fw → PortalTemplate × World fw
  portal_template error csrf_token w =
      let (portal, w') = portal_config_from_db fw config w in
      (
        record {
          error = error;
          csrf_token = csrf_token;
          cafe_name = portal.cafe_name;
          welcome_message = portal.welcome_message;
        },
        w',
      )

  unfoldable pub portal_page : ClientInfo → ℕ → Str → AppState fw → PortalTemplate × AppState fw
  portal_page client instant fresh app =
      let (csrf_token, store) = get_or_generate app.portal_csrf_store client.mac instant fresh in
      let (page, w) = portal_template none csrf_token app.world in
      (page, record app { portal_csrf_store = store; world = w })

  -- The `match` on the session.
  abbrev pub success_of : ℕ → Option Session → Handler fw SuccessAnswer
  success_of now none = pure to_portal
  success_of now (some s) =
      if ltb 0 (remaining_seconds s.expires_at now)
      then (do
        portal ← reread fw config
        pure (
            shown (record {
              remaining_seconds = remaining_seconds s.expires_at now;
              total_seconds = compute_total_seconds s.started_at s.expires_at;
              plan_name = or_empty s.plan_name;
              cafe_name = portal.cafe_name;
            })))
      else pure to_portal

  unfoldable pub success_page : Str → ℕ → Handler fw SuccessAnswer
  success_page mac now = do
    session ← internally (query (λ db. get_session_by_mac db mac now))
    success_of now session

  unfoldable pub expired_page : Handler fw ContactTemplate
  expired_page = do portal ← reread fw config; pure (contact_of portal)

  -- Its only field is the cafe's name.
  unfoldable pub privacy_page : Handler fw Str
  privacy_page = do portal ← reread fw config; pure portal.cafe_name

  unfoldable pub plans_page : Handler fw PlansTemplate
  plans_page = do
    plans ← internally (query list_active_plans)
    portal ← reread fw config
    pure (record { plans = plans; contact = contact_of portal })
