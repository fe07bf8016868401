-- ===== src/Login/Access.antt =====
-- src/web/admin.rs: who is logged in, and what a login and a refusal leave.
use didicafe.Base.{
  ℕ, ◌+◌, ◌≡◌, ◌≢◌, ◌∙◌, ap, refl, Bool, true, false, some, ltb, Str, str_eq, arith, beq_refl,
}
use didicafe.Base.Map
use didicafe.RateLimit.{IpAddr, RateLimitResult, allowed, throttled, banned, check_and_record}
use didicafe.Csrf as Csrf
use didicafe.AdminSession as Sessions
use didicafe.Db.Audit.{audit_log}
use didicafe.Firewall.{Firewall}
use didicafe.World.{execute, call}
use didicafe.Config.{Config}
use didicafe.Login.{
  AdminState, LoginRequest, LoginResponse, logged_in, login_form, too_many_requests, extract_cookie,
  admin_cookie_name, measured, grant, decide, check_credentials, login_limited, login_submitted,
  login_submit,
}

abbrev pub is_logged_in : LoginResponse → Bool
is_logged_in (logged_in cookie) = true
is_logged_in (login_form message token) = false
is_logged_in (too_many_requests retry_after token) = false

-- What a refusal must leave as it was.
abbrev pub IsUntouched : {fw : Firewall} → AdminState fw → AdminState fw → Type 0
IsUntouched app app' =
    (app'.admin_sessions ≡ app.admin_sessions)
    × (app'.world.firewall ≡ app.world.firewall)
    × (app'.world.db.tokens ≡ app.world.db.tokens)
    × (app'.world.db.sessions ≡ app.world.db.sessions)

replaced :
    (s : Sessions.AdminSessionStore) (old id csrf : Str) (now later : ℕ)
    → old ≢ id
    → let s' = (Sessions.create (Sessions.remove s old) id csrf now).1 in
      ((Sessions.validate s' id later).0 ≡ ltb later (now + s.timeout))
      × ((Sessions.validate s' old later).0 ≡ false)
unfolding Sessions.validate Sessions.create Sessions.remove
replaced s old id csrf now later apart = ground (
  arith,
  Map.get-insert id id (record { expires_at = now + s.timeout; csrf_token = csrf })
      (Map.remove old s.sessions),
  Map.get-insert id old (record { expires_at = now + s.timeout; csrf_token = csrf })
      (Map.remove old s.sessions),
  Map.get-remove old old s.sessions,
  beq_refl id,
  beq_refl old,
  str_eq.equal_iff id old,
)

module _ (fw : Firewall) (to_string : IpAddr → Str) (verify_password : Str → Str → Bool)
    (config : Config) where
  decide-refused :
      (r : LoginRequest) (ok_credentials : Bool) (app : AdminState fw)
      → is_logged_in (decide fw to_string verify_password config r ok_credentials app).0 ≡ false
      → IsUntouched app (decide fw to_string verify_password config r ok_credentials app).1
  unfolding grant execute audit_log
  decide-refused r true app h = ground arith
  decide-refused r false app h = ground arith

  measured-refused :
      (r : LoginRequest) (too_long : Bool) (app : AdminState fw)
      → is_logged_in (measured fw to_string verify_password config r too_long app).0 ≡ false
      → IsUntouched app (measured fw to_string verify_password config r too_long app).1
  measured-refused r true app h = (refl, refl, refl, refl)
  measured-refused r false app h = decide-refused r _ app h

  limited-refused :
      (r : LoginRequest) (result : RateLimitResult) (app : AdminState fw)
      → is_logged_in (login_limited fw to_string verify_password config r result app).0 ≡ false
      → IsUntouched app (login_limited fw to_string verify_password config r result app).1
  unfolding check_credentials
  limited-refused r allowed app h = measured-refused r _ app h
  limited-refused r throttled app h = (refl, refl, refl, refl)
  limited-refused r (banned n) app h = (refl, refl, refl, refl)

  submitted-refused :
      (r : LoginRequest) (accepted : Bool) (app : AdminState fw)
      → is_logged_in (login_submitted fw to_string verify_password config r accepted app).0 ≡ false
      → IsUntouched app (login_submitted fw to_string verify_password config r accepted app).1
  submitted-refused r true app h = limited-refused r _ _ h
  submitted-refused r false app h = (refl, refl, refl, refl)

  -- A login that is not granted, at whatever step, opens and closes no administrator's session, and
  -- leaves the firewall and the tokens and sessions of the database as they were.
  pub login_refused :
      (r : LoginRequest) (app : AdminState fw)
      → is_logged_in (login_submit fw to_string verify_password config r app).0 ≡ false
      → IsUntouched app (login_submit fw to_string verify_password config r app).1
  unfolding login_submit
  login_refused r app h = submitted-refused r _ _ h

  decide-granted :
      (r : LoginRequest) (ok_credentials : Bool) (app : AdminState fw)
      → is_logged_in (decide fw to_string verify_password config r ok_credentials app).0 ≡ true
      → (ok_credentials ≡ true)
        × (decide fw to_string verify_password config r ok_credentials app
            ≡ grant fw to_string verify_password config r app)
  decide-granted r true app h = (refl, refl)
  decide-granted r false app h = ground arith

  measured-granted :
      (r : LoginRequest) (too_long : Bool) (app : AdminState fw)
      → is_logged_in (measured fw to_string verify_password config r too_long app).0 ≡ true
      → (r.form.username ≡ config.admin.username)
        × (verify_password r.form.password config.admin.password_hash ≡ true)
        × (measured fw to_string verify_password config r too_long app
            ≡ grant fw to_string verify_password config r app)
  measured-granted r true app h = ground arith
  measured-granted r false app h =
      let (credentials, same) = decide-granted r _ app h in
      (
        ground (arith, credentials, str_eq.equal_iff r.form.username config.admin.username),
        ground (arith, credentials),
        same,
      )

  grant-create :
      (r : LoginRequest) (app : AdminState fw) (old : Str)
      → extract_cookie r.cookie_header admin_cookie_name ≡ some old
      → (grant fw to_string verify_password config r app).1.admin_sessions
        ≡ (Sessions.create
            (Sessions.remove app.admin_sessions old)
            r.session_id
            r.session_csrf
            r.instant).1
  unfolding grant execute call
  grant-create r app old cookie = ground (arith, cookie)

  limited-granted :
      (r : LoginRequest) (result : RateLimitResult) (app : AdminState fw)
      → is_logged_in (login_limited fw to_string verify_password config r result app).0 ≡ true
      → (result ≡ allowed)
        × (r.form.username ≡ config.admin.username)
        × (verify_password r.form.password config.admin.password_hash ≡ true)
        × (login_limited fw to_string verify_password config r result app
            ≡ grant fw to_string verify_password config r app)
  unfolding check_credentials
  limited-granted r allowed app h =
      let (name, password, same) = measured-granted r _ app h in (refl, name, password, same)
  limited-granted r throttled app h = ground arith
  limited-granted r (banned n) app h = ground arith

  submitted-granted :
      (r : LoginRequest) (accepted : Bool) (app : AdminState fw)
      → is_logged_in (login_submitted fw to_string verify_password config r accepted app).0 ≡ true
      → (accepted ≡ true)
        × ((check_and_record app.admin_rate_limiter r.ip r.instant).0 ≡ allowed)
        × (r.form.username ≡ config.admin.username)
        × (verify_password r.form.password config.admin.password_hash ≡ true)
  submitted-granted r true app h =
      let (free, name, password, same) = limited-granted r _ _ h in (refl, free, name, password)
  submitted-granted r false app h = ground arith

  -- Whoever is logged in submitted the form token of its address, was allowed by the limiter, and gave
  -- the configured name and a password that passes the check.
  pub login_granted :
      (r : LoginRequest) (app : AdminState fw)
      → is_logged_in (login_submit fw to_string verify_password config r app).0 ≡ true
      → ((Csrf.validate app.login_csrf_store (to_string r.ip) r.form.csrf_token r.instant).0 ≡ true)
        × ((check_and_record app.admin_rate_limiter r.ip r.instant).0 ≡ allowed)
        × (r.form.username ≡ config.admin.username)
        × (verify_password r.form.password config.admin.password_hash ≡ true)
  unfolding login_submit
  login_granted r app h = submitted-granted r _ _ h

  submitted-create :
      (r : LoginRequest) (accepted : Bool) (app : AdminState fw) (old : Str)
      → extract_cookie r.cookie_header admin_cookie_name ≡ some old
      → is_logged_in (login_submitted fw to_string verify_password config r accepted app).0 ≡ true
      → (login_submitted fw to_string verify_password config r accepted app).1.admin_sessions
        ≡ (Sessions.create
            (Sessions.remove app.admin_sessions old)
            r.session_id
            r.session_csrf
            r.instant).1
  submitted-create r true app old cookie h =
      let (free, name, password, same) = limited-granted r _ _ h in
      ap (λ result. result.1.admin_sessions) same ∙ grant-create r _ old cookie
  submitted-create r false app old cookie h = ground arith

  -- A login that is granted replaces the session of its cookie: the new identifier is accepted until
  -- the timeout, and the old one no longer.
  pub login_replaces :
      (r : LoginRequest) (app : AdminState fw) (old : Str) (later : ℕ)
      → extract_cookie r.cookie_header admin_cookie_name ≡ some old
      → old ≢ r.session_id
      → is_logged_in (login_submit fw to_string verify_password config r app).0 ≡ true
      → ((Sessions.validate
            (login_submit fw to_string verify_password config r app).1.admin_sessions
            r.session_id
            later).0
          ≡ ltb later (r.instant + app.admin_sessions.timeout))
        × ((Sessions.validate
              (login_submit fw to_string verify_password config r app).1.admin_sessions
              old
              later).0
            ≡ false)
  unfolding login_submit
  login_replaces r app old later cookie apart h =
      rw (submitted-create r _ _ old cookie h)
        (replaced app.admin_sessions old r.session_id r.session_csrf r.instant later apart)
