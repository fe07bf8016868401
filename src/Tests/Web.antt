-- ===== src/Tests/Web.antt =====
-- Runs of src/web/mod.rs, src/web/captive.rs and src/web/extractors.rs.
use didicafe.Base.{
  ℕ, ◌+◌, ◌≡◌, ◌↔◌, refl, true, Option, none, some, [], ◌∷◌, Str, lit, list_beq, ok, strip_prefix,
  if◌then◌else◌,
}
use didicafe.Base.Int.{pos}
use didicafe.RateLimit.{IpAddr, v4}
use didicafe.Db.Tables.{empty}
use didicafe.Db.Sessions.{get_session_by_mac}
use didicafe.Firewall.Mock.{mock_firewall}
use didicafe.Mac.{is_valid_mac, validate_mac, check_bytes, check_byte}
use didicafe.World.{World, execute}
use didicafe.Web.{header}
use didicafe.Web.Layers.{HttpRequest, Service, is_sensitive, is_allowed}
use didicafe.Web.Routes.{Table, admin_router}
use didicafe.Web.Answers.{admin_router-filter}
use didicafe.Web.Input.{validate_plan_input, IsPlanInput, validate_plan_input-IsPlanInput}
use didicafe.Web.Capport.{captive_api, body, resolve_client_mac}
use didicafe.Tests.Samples.{sample_config, to_string}

-- Handlers that answer 200, and set a header of their own.
abbrev pub dispatch : Table → Str → Service ℕ
dispatch table fallback request served = (
  record { status = 200; headers = (lit "cache-control", lit "public") ∷ []; body = lit "page" },
  served + 1,
)

abbrev pub from_str : Str → Option Str
from_str s = some s

-- No address parses, so no network takes one.
abbrev pub parse_ip : Str → Option IpAddr
parse_ip s = none

abbrev request : HttpRequest
request = record { path = lit "/admin/manage"; peer = v4 5 }

sensitive : is_sensitive (lit "/admin/manage") ≡ true
unfolding strip_prefix
sensitive = refl

admin_router-filter_example :
    let answer = admin_router dispatch to_string from_str parse_ip sample_config request 0 in
    let allowed = is_allowed parse_ip sample_config (v4 5) in
    (answer.0.status ≡ (if allowed then 200 else 403))
    × (answer.0.body ≡ (if allowed then lit "page" else lit "access denied"))
    × (answer.1 ≡ (if allowed then 1 else 0))
    × (header (lit "Strict-Transport-Security") answer.0 ≡ some (lit "max-age=63072000"))
admin_router-filter_example =
    admin_router-filter dispatch to_string from_str parse_ip sample_config request 0

validate_plan_input-IsPlanInput_example :
    (validate_plan_input (lit "1h") (pos 60) (pos 1000) ≡ ok tt)
    ↔ IsPlanInput (lit "1h") (pos 60) (pos 1000)
validate_plan_input-IsPlanInput_example =
    validate_plan_input-IsPlanInput (lit "1h") (pos 60) (pos 1000)

abbrev world : World mock_firewall
world = record { db = empty; firewall = []; io = [] }

abbrev mac : Str
mac = lit "aa:bb:cc:dd:ee:05"

known : is_valid_mac mac ≡ true
unfolding is_valid_mac validate_mac check_bytes check_byte list_beq
known = refl

captive :
    (captive_api mock_firewall to_string sample_config (some mac) 20 world).0
    ≡ ok (body mock_firewall to_string sample_config true none)
unfolding captive_api resolve_client_mac is_valid_mac validate_mac check_bytes check_byte list_beq
    execute get_session_by_mac
captive = refl
