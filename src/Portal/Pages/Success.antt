-- ===== src/Portal/Pages/Success.antt =====
-- src/web/portal.rs, src/services/session.rs: what the client sees once its code is accepted.
use didicafe.Base.{
  ℕ, ◌+◌, ◌-◌, ◌*◌, ◌<◌, ◌≤◌, ◌≡◌, refl, ap, sym, ◌∙◌, some, [], Str, ok, arith, lt→ltb,
}
use didicafe.Base.Int.{pos}
use didicafe.Config.{Config}
use didicafe.Db.Models.{Plan, Session, remaining_seconds, seconds}
use didicafe.Db.Tables.{TokenRow, token_by_id, plan_by_id}
use didicafe.Db.Sessions.{get_session_by_mac}
use didicafe.Firewall.{Firewall}
use didicafe.World.{World, query_quiet}
use didicafe.SessionService.{Clock, create_session, expiry}
use didicafe.SessionService.Found.{create-get_session_by_mac, created_session}
use didicafe.Settings.{apply_settings, portal_config_quiet}
use didicafe.Web.Handler as Handlers
use didicafe.Web.{internal}
use didicafe.Portal.{compute_total_seconds, or_empty}
use didicafe.Portal.Pages.{shown, success_page, success_of}

-- The page of a session of which time is left.
page_of :
    (fw : Firewall) (config : Config) (w : World fw) (s : Session) (now : ℕ)
    → w.io ≡ []
    → 0 < remaining_seconds s.expires_at now
    → (success_of fw config now (some s) w).0
      ≡ ok (
          shown (record {
            remaining_seconds = remaining_seconds s.expires_at now;
            total_seconds = compute_total_seconds s.started_at s.expires_at;
            plan_name = or_empty s.plan_name;
            cafe_name = (apply_settings config.portal w.db.settings).cafe_name;
          }))
page_of fw config w s now quiet left =
    rw (lt→ltb _ _ left) (rw (portal_config_quiet fw config w quiet) refl)

module _ (fw : Firewall) (config : Config) (token_id minutes : ℕ) (mac ip : Str) (clock : Clock)
    (w w' : World fw) (id : ℕ) (t : TokenRow) (p : Plan)
    (forwards : seconds clock.started ≤ seconds clock.inserted) where
  -- Once a session is created for the minutes of its token's plan, and as long as a whole second of it
  -- is left, the page that the client is sent to shows the time that is left, the plan's name, and as
  -- the whole time the plan's minutes less the seconds that passed until the session was inserted;
  -- where the token and its plan are in the database, the clock does not run backwards in between, and
  -- no statement fails from then on.
  pub create-success_page :
      (later : ℕ)
      → create_session fw token_id p.duration_minutes mac ip clock w ≡ (ok id, w')
      → p.duration_minutes ≡ pos minutes
      → token_by_id w.db token_id ≡ some t
      → plan_by_id w.db t.plan_id ≡ some p
      → w'.io ≡ []
      → 0 < remaining_seconds (expiry clock.started (pos minutes)) later
      → (success_page fw config mac later w').0
        ≡ ok (
            shown (record {
              remaining_seconds = remaining_seconds (expiry clock.started (pos minutes)) later;
              total_seconds = minutes * 60 - (seconds clock.inserted - seconds clock.started);
              plan_name = p.name;
              cafe_name = (apply_settings config.portal w'.db.settings).cafe_name;
            }))
  unfolding success_page
  create-success_page later created sold token plan quiet left =
      let made : create_session fw token_id (pos minutes) mac ip clock w ≡ (ok id, w') =
        ap (λ d. create_session fw token_id d mac ip clock w) (sym sold) ∙ created in
      let found =
        create-get_session_by_mac fw token_id (pos minutes) mac ip clock w w' id t p made token plan
          later (omega arith) in
      let s =
        created_session t p id token_id mac ip (expiry clock.started (pos minutes))
          clock.inserted in
      let elapsed : seconds clock.started + minutes * 60 - seconds clock.inserted
          ≡ minutes * 60 - (seconds clock.inserted - seconds clock.started) =
        omega (arith, forwards) in
      ap
        (λ r.
          (Handlers.continue (Handlers.convert (λ e. internal) r) (success_of fw config later)).0)
        (query_quiet (λ db. get_session_by_mac db mac later) w' quiet)
      ∙ ap (λ o. (success_of fw config later o w').0) found
      ∙ page_of fw config w' s later quiet left
      ∙ ap
          (λ total. ok (
            shown (record {
              remaining_seconds = remaining_seconds (expiry clock.started (pos minutes)) later;
              total_seconds = total;
              plan_name = p.name;
              cafe_name = (apply_settings config.portal w'.db.settings).cafe_name;
            })))
          elapsed
