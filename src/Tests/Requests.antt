-- ===== src/Tests/Requests.antt =====
-- Runs of src/web/portal.rs.
use didicafe.Base.{
  ℕ, ◌≡◌, ◌≢◌, refl, true, none, [], ◌∷◌, map, Str, lit, list_beq, str_eq, strip_prefix, leb, ◌&&◌,
  if◌then◌else◌, ◌-◌, ok, arith,
}
use didicafe.Base.Map
use didicafe.Base.Int.{pos}
use didicafe.RateLimit as Limit
use didicafe.RateLimit.{IpAddr, v4, allowed, check_and_record}
use didicafe.Csrf as Csrf
use didicafe.TokenCode.{TokenConfig, validate_token_format, check_body, check_chars}
use didicafe.Db.Models.{Token, TokenStatus}
use didicafe.Db.Tables.{Database, token_view}
use didicafe.Db.Tokens.{get_token_by_code}
use didicafe.Db.Sessions as Rows
use didicafe.Db.Active.{active_count}
use didicafe.Firewall.Mock.{mock_firewall}
use didicafe.World.{World, execute, call}
use didicafe.SessionService.{create_session}
use didicafe.Portal.{
  AppState, Request, success, form_page, portal_auth, validate_token, unused_token, check_rate,
  check_code, retry_page, serve, code_of,
}
use didicafe.Portal.Auth.{refused-tokens, served, is_known, tokens_of}
use didicafe.Portal.Race.{raced}
use didicafe.Tests.Records as Records
use didicafe.Tests.Records.{mac, neighbour}
use didicafe.Tests.Samples.{clock_at}

abbrev code : Str
code = lit "WIFI-ABCD-2323"

-- The code is on sale, and nobody is connected.
abbrev offered : Database
offered = record Records.served {
  tokens =
      record {
        id = 1;
        code = code;
        name = none;
        plan_id = 1;
        status = TokenStatus.unused;
        created_at = 0;
        redeemed_at = none;
        expires_at = none;
      }
      ∷ [];
  sessions = [];
}

abbrev token : Token
token = record {
  id = 1;
  code = code;
  name = none;
  plan_id = 1;
  status = TokenStatus.unused;
  created_at = 0;
  redeemed_at = none;
  expires_at = none;
  duration_minutes = pos 60;
  plan_name = lit "Hour";
}

abbrev config : TokenConfig
config = record { prefix = lit "WIFI"; charset = lit "ABCD23"; length = 8 }

abbrev to_string : IpAddr → Str
to_string ip = lit "10.0.0.2"

abbrev to_upper : ℕ → ℕ
to_upper c = if leb b'a' c && leb c b'z' then c - 32 else c

abbrev app : AppState mock_firewall
app = record {
  world = record { db = offered; firewall = []; io = [] };
  rate_limiter = record {
    attempts = [];
    bans = [];
    config = record {
      max_auth_attempts = 2;
      auth_window_seconds = 10;
      ban_after_attempts = 3;
      ban_duration_seconds = 60;
    };
  };
  portal_csrf_store = record {
    tokens = (mac, record { token = lit "form1"; created_at = 0 }) ∷ [];
  };
}

abbrev request : Str → Str → Request
request submitted csrf = record {
  client = record { ip = v4 167772162; mac = mac };
  form = record { token = submitted; csrf_token = csrf };
  instant = 1_000_000_000;
  clock = clock_at 20_000_000_000;
  fresh = lit "form2";
}

refused :
    (portal_auth mock_firewall to_string
      (map to_upper)
      config
      (request (lit "wifi-abcd") (lit "form1"))
      app).0
    ≡ form_page (lit "portal.error.invalid") (lit "form2")
unfolding portal_auth check_rate check_code retry_page Csrf.validate Csrf.generate check_and_record
    Limit.current_ban Limit.record_attempt Limit.sweep Limit.recorded Limit.verdict Limit.live_bans
    Map.get Map.remove Map.insert Map.retain list_beq validate_token_format strip_prefix check_body
refused = refl

refused_ne :
    (portal_auth mock_firewall to_string
      (map to_upper)
      config
      (request (lit "wifi-abcd") (lit "form1"))
      app).0
    ≢ success
refused_ne e = ground (arith, refused)

refused-tokens_example :
    tokens_of (
      portal_auth mock_firewall to_string
        (map to_upper)
        config
        (request (lit "wifi-abcd") (lit "form1"))
        app)
    ≡ offered.tokens
refused-tokens_example =
    refused-tokens mock_firewall to_string (map to_upper) config
      (request (lit "wifi-abcd") (lit "form1")) app refused_ne

accepted :
    (portal_auth mock_firewall to_string
      (map to_upper)
      config
      (request (lit " wifi-abcd-2323") (lit "form1"))
      app).0
    ≡ success
unfolding portal_auth check_rate check_code retry_page serve Csrf.validate Csrf.generate
    check_and_record Limit.current_ban Limit.record_attempt Limit.sweep Limit.recorded Limit.verdict
    Limit.live_bans Map.get Map.remove Map.insert Map.retain list_beq validate_token_format
    strip_prefix check_body check_chars execute call create_session validate_token get_token_by_code
    token_view Rows.create_session
accepted = refl

served_example :
    ((Csrf.validate app.portal_csrf_store mac (lit "form1") 1_000_000_000).0 ≡ true)
    × ((check_and_record app.rate_limiter (v4 167772162) 1_000_000_000).0 ≡ allowed)
    × (validate_token_format config
          (code_of (map to_upper) (request (lit " wifi-abcd-2323") (lit "form1")))
        ≡ ok tt)
    × (is_known (
          validate_token offered
            (code_of (map to_upper) (request (lit " wifi-abcd-2323") (lit "form1"))))
        ≡ true)
served_example =
    served mock_firewall to_string (map to_upper) config
      (request (lit " wifi-abcd-2323") (lit "form1")) app accepted

apart : neighbour ≢ mac
unfolding list_beq
apart e = ground (arith, str_eq.equal_iff neighbour mac)

unused : validate_token offered code ≡ unused_token token
unfolding validate_token get_token_by_code token_view list_beq
unused = refl

abbrev first : World mock_firewall
first =
    (create_session mock_firewall 1 (pos 60) mac (lit "10.0.0.2") (clock_at 20_000_000_000)
      app.world).1

raced_example :
    let second =
      create_session mock_firewall 1
        (pos 60)
        neighbour
        (lit "10.0.0.3")
        (clock_at 20_000_000_001)
        first in
    ((create_session mock_firewall 1
        (pos 60)
        mac
        (lit "10.0.0.2")
        (clock_at 20_000_000_000)
        app.world).0
      ≡ ok 2)
    × (second.0 ≡ ok first.db.next_session)
    × (active_count mac second.1.db ≡ 1)
    × (active_count neighbour second.1.db ≡ 1)
raced_example =
    raced mock_firewall (λ m i t s. refl) code mac neighbour (lit "10.0.0.2") (lit "10.0.0.3")
      (clock_at 20_000_000_000) (clock_at 20_000_000_001) token app.world unused apart refl
