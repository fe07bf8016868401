-- ===== src/Tests/Logins.antt =====
-- Runs of src/web/admin.rs.
use didicafe.Base.{
  ◌+◌, ◌≡◌, ◌≢◌, Bool, refl, true, false, some, [], ◌∷◌, Str, lit, list_beq, str_eq, ltb,
  strip_prefix, arith, ◌==◌,
}
use didicafe.Base.Map
use didicafe.RateLimit as Limit
use didicafe.RateLimit.{IpAddr, v4, allowed, check_and_record}
use didicafe.Csrf as Csrf
use didicafe.AdminSession as Sessions
use didicafe.Db.Tables.{empty}
use didicafe.Firewall.Mock.{mock_firewall}
use didicafe.Tests.Samples.{sample_config}
use didicafe.Login.{
  AdminState, LoginRequest, extract_cookie, cookie_in, admin_cookie_name, login_submit,
  check_credentials, grant,
}
use didicafe.Login.Access.{login_granted, login_replaces, is_logged_in}

abbrev to_string : IpAddr → Str
to_string ip = lit "10.0.0.5"

abbrev app : AdminState mock_firewall
app = record {
  world = record { db = empty; firewall = []; io = [] };
  admin_rate_limiter = record {
    attempts = [];
    bans = [];
    config = record {
      max_auth_attempts = 2;
      auth_window_seconds = 10;
      ban_after_attempts = 3;
      ban_duration_seconds = 60;
    };
  };
  login_csrf_store = record {
    tokens = (lit "10.0.0.5", record { token = lit "form1"; created_at = 0 }) ∷ [];
  };
  admin_sessions = record {
    sessions = (lit "old1", record { expires_at = 9_000_000_000_000; csrf_token = lit "c1" }) ∷ [];
    timeout = 3600_000_000_000;
  };
}

abbrev request : Str → LoginRequest
request password = record {
  ip = v4 167772165;
  cookie_header = some (lit "lang=fr; didicafe_admin=old1");
  form = record { username = lit "admin"; password = password; csrf_token = lit "form1" };
  client_mac = some (lit "aa:bb:cc:dd:ee:05");
  instant = 1_000_000_000;
  now = 20_000_000_000;
  fresh = lit "form2";
  session_id = lit "new1";
  session_csrf = lit "c2";
}

-- The password check of these runs.
abbrev verify : Str → Str → Bool
verify password hash = password == lit "secret"

refuses :
    is_logged_in
      (login_submit mock_firewall to_string verify sample_config (request (lit "guess")) app).0
    ≡ false
unfolding login_submit check_credentials grant Csrf.validate Csrf.generate check_and_record
    Limit.current_ban Limit.record_attempt Limit.sweep Limit.recorded Limit.verdict Limit.live_bans
    Map.get Map.remove Map.insert Map.retain list_beq
refuses = refl

grants :
    is_logged_in
      (login_submit mock_firewall to_string verify sample_config (request (lit "secret")) app).0
    ≡ true
unfolding login_submit check_credentials grant Csrf.validate Csrf.generate check_and_record
    Limit.current_ban Limit.record_attempt Limit.sweep Limit.recorded Limit.verdict Limit.live_bans
    Map.get Map.remove Map.insert Map.retain list_beq
grants = refl

login_granted_example :
    ((Csrf.validate app.login_csrf_store (lit "10.0.0.5") (lit "form1") 1_000_000_000).0 ≡ true)
    × ((check_and_record app.admin_rate_limiter (v4 167772165) 1_000_000_000).0 ≡ allowed)
    × (lit "admin" ≡ lit "admin")
    × (verify (lit "secret") sample_config.admin.password_hash ≡ true)
login_granted_example =
    login_granted mock_firewall to_string verify sample_config (request (lit "secret")) app grants

cookie :
    extract_cookie (some (lit "lang=fr; didicafe_admin=old1")) admin_cookie_name ≡ some (lit "old1")
unfolding extract_cookie cookie_in strip_prefix
cookie = refl

apart : lit "old1" ≢ lit "new1"
unfolding list_beq
apart e = ground (arith, str_eq.equal_iff (lit "old1") (lit "new1"))

login_replaces_example :
    ((Sessions.validate
        (login_submit mock_firewall to_string verify sample_config
          (request (lit "secret"))
          app).1.admin_sessions
        (lit "new1")
        2_000_000_000).0
      ≡ ltb 2_000_000_000 (1_000_000_000 + 3600_000_000_000))
    × ((Sessions.validate
          (login_submit mock_firewall to_string verify sample_config
            (request (lit "secret"))
            app).1.admin_sessions
          (lit "old1")
          2_000_000_000).0
        ≡ false)
login_replaces_example =
    login_replaces mock_firewall to_string verify sample_config (request (lit "secret")) app
      (lit "old1") 2_000_000_000 cookie apart grants
