-- ===== src/Config.antt =====
-- src/config.rs: the configuration, and the check that it passes before the program starts. Reading
-- the file is a library's. The parse of an IP address is a parameter.
pub mod Check
pub mod Sections
pub mod Accepted
pub mod Colour
use didicafe.Base.{
  ℕ, ◌+◌, ◌*◌, ◌%◌, Bool, true, false, not, ◌&&◌, ◌||◌, none, some, List, [], ◌∷◌, leb, eqb,
  if◌then◌else◌, ◌==◌, Str, lit, str_eq, byte_len, strip_prefix, all, is_empty,
}
use didicafe.Base.Int.{ℤ}
use didicafe.Mac.{is_ascii_digit, is_ascii_alphabetic, is_ascii_hexdigit}
use didicafe.RateLimit.{RateLimitConfig}
use didicafe.TokenCode.{TokenConfig}

pub record ServerConfig : Type 0 where
  pub listen : Str
  pub port : ℕ
  pub interfaces : List Str

pub record DatabaseConfig : Type 0 where
  pub path : Str

pub record AdminConfig : Type 0 where
  pub username : Str
  pub password_hash : Str
  pub session_timeout_seconds : ℕ
  pub allowed_networks : List Str

pub record FirewallConfig : Type 0 where
  pub nft_path : Str
  pub table_name : Str
  pub set_name : Str

pub record SessionConfig : Type 0 where
  pub cleanup_interval_seconds : ℕ
  pub grace_period_seconds : ℤ
  pub retention_days : ℤ
  pub audit_retention_days : ℤ

pub record PortalConfig : Type 0 where
  pub domain : Str
  pub admin_domain : Str
  pub cafe_name : Str
  pub welcome_message : Str
  pub theme_color : Str
  pub contact_phone : Str
  pub contact_name : Str
  pub contact_hours : Str

pub record TlsConfig : Type 0 where
  pub enabled : Bool
  pub cert_path : Str
  pub key_path : Str
  pub admin_port : ℕ

pub record Config : Type 0 where
  pub server : ServerConfig
  pub database : DatabaseConfig
  pub admin : AdminConfig
  pub firewall : FirewallConfig
  pub token : TokenConfig
  pub rate_limit : RateLimitConfig
  pub session : SessionConfig
  pub portal : PortalConfig
  pub tls : TlsConfig

-- The message of a check that fails, by the field that it names.
pub data ConfigError : Type 0 where
  server_port listen_empty listen_invalid interfaces_empty : ConfigError
  interface_name : Str → ConfigError
  database_path username_empty password_hash password_known session_timeout : ConfigError
  nft_path table_name set_name charset_empty token_length prefix_empty : ConfigError
  max_attempts window ban_after ban_duration : ConfigError
  cleanup_interval retention audit_retention : ConfigError
  domain_empty domain_invalid admin_domain_empty admin_domain_invalid same_domain : ConfigError
  cafe_name_empty cafe_name_long theme_color : ConfigError
  cert_path key_path admin_port same_port : ConfigError
  allowed_network : Str → ConfigError

abbrev pub is_ascii_alphanumeric : ℕ → Bool
is_ascii_alphanumeric c = is_ascii_digit c || is_ascii_alphabetic c

abbrev pub is_interface : Str → Bool
is_interface name =
    not (is_empty name)
    && (leb (byte_len name) 15
        && all (λ c. is_ascii_alphanumeric c || (eqb c b'-' || eqb c b'_')) name)

abbrev pub is_identifier : Str → Bool
is_identifier name = not (is_empty name) && all (λ c. is_ascii_alphanumeric c || eqb c b'_') name

abbrev pub is_domain : Str → Bool
is_domain = all (λ c. is_ascii_alphanumeric c || (eqb c b'.' || eqb c b'-'))

abbrev pub starts_with : Str → Str → Bool
starts_with s prefix = elim (strip_prefix prefix s) [ none ↦ false | some rest ↦ true ]

abbrev pub known_weak_hashes : List Str
known_weak_hashes =
    lit
      "$argon2id$v=19$m=19456,t=2,p=1$UmHhUjxRtY3c7xV5M6xDaA$Vwia8SfxfxVLTom4LovEtY8PbJitJYDissghdMfTcSM"
    ∷ []

-- Three or six hexadecimal digits after a `#`.
unfoldable pub is_valid_hex_color : Str → Bool
is_valid_hex_color s = elim (strip_prefix (b'#' ∷ []) s) [
  | none ↦ false
  | some digits ↦
      (eqb (byte_len digits) 3 || eqb (byte_len digits) 6) && all is_ascii_hexdigit digits
]

abbrev pub in_port_range : ℕ → Bool
in_port_range port = leb 1 port && leb port 65535
