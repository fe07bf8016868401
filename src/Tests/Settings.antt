-- ===== src/Tests/Settings.antt =====
-- Runs of src/config.rs, and of the settings of src/web/admin.rs.
use didicafe.Base.{
  ◌-◌, ◌/◌, ◌^◌, ◌≡◌, ◌↔◌, refl, Option, none, some, [], ◌∷◌, Str, lit, list_beq, str_eq, true, ok,
  strip_prefix, arith, ◌==◌, if◌then◌else◌,
}
use didicafe.RateLimit as Limit
use didicafe.RateLimit.{IpAddr, v4, run}
use didicafe.RateLimit.View.{IsValid}
use didicafe.Cidr.{split_once, parse_digits, parse_u8, parse_cidr, ip_in_cidr, width}
use didicafe.Cidr.Prefix.{ip_in_cidr-leading, bits}
use didicafe.Config.{is_valid_hex_color}
use didicafe.Config.Check.{validate}
use didicafe.Config.Accepted.{IsAccepted, validate-IsAccepted, run-new-IsValid}
use didicafe.Base.Map
use didicafe.Config.{PortalConfig}
use didicafe.Db.Tables.{empty}
use didicafe.Db.Plans.{set_setting}
use didicafe.Db.Audit.{audit_log}
use didicafe.Firewall.Mock.{mock_firewall}
use didicafe.Portal.{trim}
use didicafe.World.{World, execute}
use didicafe.Settings.{
  SettingsForm, settings_submit, validate_settings, portal_config_from_db, get_all_settings,
  apply_settings, apply_setting,
}
use didicafe.Settings.RoundTrip.{settings_submit-apply_settings}
use didicafe.Tests.Samples.{sample_config}

-- The parse of these runs knows the two addresses.
abbrev pub parse_ip : Str → Option IpAddr
parse_ip s =
    if s == lit "10.10.0.1"
    then some (v4 168427521)
    else if s == lit "10.10.0.0"
    then some (v4 168427520)
    else none

pub accepted : validate parse_ip sample_config ≡ ok tt
unfolding validate is_valid_hex_color strip_prefix parse_cidr split_once parse_digits parse_u8
    list_beq
accepted = refl

validate-IsAccepted_example :
    (validate parse_ip sample_config ≡ ok tt) ↔ IsAccepted parse_ip sample_config
validate-IsAccepted_example = validate-IsAccepted parse_ip sample_config

run-new-IsValid_example :
    IsValid (run (Limit.new sample_config.rate_limit) ((v4 1, 5) ∷ (v4 1, 6) ∷ (v4 2, 7) ∷ []))
run-new-IsValid_example =
    run-new-IsValid parse_ip sample_config ((v4 1, 5) ∷ (v4 1, 6) ∷ (v4 2, 7) ∷ []) (omega arith)
      accepted

network : parse_cidr parse_ip (lit "10.10.0.0/24") ≡ some (v4 168427520, 24)
unfolding parse_cidr split_once parse_digits parse_u8 list_beq
network = refl

ip_in_cidr-leading_example : (ip_in_cidr parse_ip (v4 168427521) (lit "10.10.0.0/24") ≡ true) ↔ (
    (width (v4 168427521) ≡ width (v4 168427520))
    × (bits (v4 168427521) / 2 ^ (32 - 24) ≡ bits (v4 168427520) / 2 ^ (32 - 24)))
ip_in_cidr-leading_example =
    ip_in_cidr-leading parse_ip (v4 168427521) (v4 168427520) (lit "10.10.0.0/24") 24 (omega arith)
      (omega arith) network

abbrev form : SettingsForm
form = record {
  cafe_name = lit " Rose ";
  welcome_message = [];
  theme_color = lit "#123";
  contact_name = lit "Lala";
  contact_phone = lit "034";
  contact_hours = [];
  csrf_token = lit "c1";
}

abbrev world : World mock_firewall
world = record {
  db = record empty { settings = (lit "theme_color", lit "#fff") ∷ [] };
  firewall = [];
  io = [];
}

abbrev answer : PortalConfig
answer = record sample_config.portal {
  cafe_name = lit "Rose";
  theme_color = lit "#123";
  contact_name = lit "Lala";
  contact_phone = lit "034";
}

submitted : (settings_submit mock_firewall sample_config (lit "c1") form 5 world).0 ≡ ok answer
unfolding settings_submit validate_settings is_valid_hex_color strip_prefix list_beq execute
    set_setting Map.insert portal_config_from_db get_all_settings apply_settings apply_setting
    audit_log
submitted = refl

distinct : Map.Distinct world.db.settings
unfolding Map.get
distinct = (refl, tt)

settings_submit-apply_settings_example :
    let after = (settings_submit mock_firewall sample_config (lit "c1") form 5 world).1.db in
    let read = apply_settings sample_config.portal (get_all_settings after) in
    (lit "c1" ≡ lit "c1")
    × (read.cafe_name ≡ trim (lit " Rose "))
    × (read.welcome_message ≡ trim [])
    × (read.theme_color ≡ trim (lit "#123"))
    × (read.contact_name ≡ trim (lit "Lala"))
    × (read.contact_phone ≡ trim (lit "034"))
    × (read.contact_hours ≡ trim [])
settings_submit-apply_settings_example =
    settings_submit-apply_settings mock_firewall sample_config (lit "c1") form 5 world answer
      distinct submitted

amber : is_valid_hex_color (lit "#B45") ≡ true
unfolding is_valid_hex_color strip_prefix
amber = refl
