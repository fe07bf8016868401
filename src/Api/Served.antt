-- ===== src/Api/Served.antt =====
-- src/web/api.rs, src/web/extractors.rs: a request to the API with the check of its login, which stands in
-- every handler's signature in front of the rest.
use didicafe.Base.{ℕ, ◌≡◌, ◌≢◌, refl, Str, Result, ok, err}
use didicafe.AdminSession.{AdminSessionStore}
use didicafe.Config.{Config}
use didicafe.Firewall.{Firewall}
use didicafe.World.{World, ServiceError}
use didicafe.Web.{AppError}
use didicafe.Web.Extract.{Parts, admin_session, IsLoggedIn, admin_session-IsLoggedIn}
use didicafe.Api.{Reply, Call, api}

-- The fields of `AppState` that the API uses.
pub record ApiState (fw : Firewall) : Type 0 where
  pub world : World fw
  pub admin_sessions : AdminSessionStore

module _ (fw : Firewall) (config : Config) (to_string : ℕ → Str)
    (describe : ServiceError → Str) where
  abbrev pub admitted :
      Call → ℕ → Result AppError (Unit {0}) → ApiState fw → Result AppError Reply × ApiState fw
  admitted c now (ok u) app =
      let (answer, w) = api fw config to_string describe c now app.world in
      (answer, record app { world = w })
  admitted c now (err e) app = (err e, app)

  -- Every handler of the source has the extractor of the login among its own parameters, so that it runs
  -- before the handler's body. Here it stands once, in front of all of them. `instant` is the monotonic
  -- clock that the sessions read, `now` the wall clock.
  unfoldable pub handle : Parts → Call → ℕ → ℕ → ApiState fw → Result AppError Reply × ApiState fw
  handle parts c instant now app =
      let (login, store) = admin_session parts app.admin_sessions instant in
      admitted c now login (record app { admin_sessions = store })

  login_of :
      (c : Call) (now : ℕ) (login : Result AppError (Unit {0})) (app : ApiState fw)
      → (admitted c now login app).1.world ≢ app.world
      → login ≡ ok tt
  login_of c now (ok u) app h = refl
  login_of c now (err e) app h = absurd (h refl)

  -- Nothing in the database or in the firewall changes by a request to the API unless its cookie names an
  -- administrator's session that is live when the request is read.
  pub handle_changes :
      (parts : Parts) (c : Call) (instant now : ℕ) (app : ApiState fw)
      → (handle parts c instant now app).1.world ≢ app.world
      → IsLoggedIn parts app.admin_sessions instant
  unfolding handle
  handle_changes parts c instant now app h =
      let (login, store) = admin_session parts app.admin_sessions instant in
      (admin_session-IsLoggedIn parts app.admin_sessions instant).0
        (login_of c now login (record app { admin_sessions = store }) h)

  answer_of :
      (c : Call) (now : ℕ) (login : Result AppError (Unit {0})) (app : ApiState fw) (reply : Reply)
      → (admitted c now login app).0 ≡ ok reply
      → login ≡ ok tt
  answer_of c now (ok u) app reply h = refl
  answer_of c now (err e) app reply h = absurd cc

  -- And nothing is answered but a refusal.
  pub handle_answers :
      (parts : Parts) (c : Call) (instant now : ℕ) (app : ApiState fw) (reply : Reply)
      → (handle parts c instant now app).0 ≡ ok reply
      → IsLoggedIn parts app.admin_sessions instant
  unfolding handle
  handle_answers parts c instant now app reply h =
      let (login, store) = admin_session parts app.admin_sessions instant in
      (admin_session-IsLoggedIn parts app.admin_sessions instant).0
        (answer_of c now login (record app { admin_sessions = store }) reply h)
