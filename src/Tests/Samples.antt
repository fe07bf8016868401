-- ===== src/Tests/Samples.antt =====
-- The data that several runs share.
use didicafe.Base.{ℕ, ◌+◌, some, true, [], ◌∷◌, Str, lit}
use didicafe.Base.Int.{pos}
use didicafe.AdminSession.{AdminSessionStore}
use didicafe.Config.{Config}
use didicafe.SessionService.{Clock}
use didicafe.Web.Extract.{Parts}

-- The configuration of the repository's example, with TLS.
abbrev pub sample_config : Config
sample_config = record {
  server = record { listen = lit "10.10.0.1"; port = 8080; interfaces = lit "wlan0" ∷ [] };
  database = record { path = lit "didicafe.db" };
  admin = record {
    username = lit "admin";
    password_hash = lit "$argon2id$v=19$m=19456,t=2,p=1$c2FsdA$aGFzaA";
    session_timeout_seconds = 3600;
    allowed_networks = lit "10.10.0.0/24" ∷ [];
  };
  firewall = record {
    nft_path = lit "/usr/sbin/nft";
    table_name = lit "didicafe";
    set_name = lit "authorized_macs";
  };
  token = record {
    prefix = lit "WIFI";
    length = 8;
    charset = lit "ABCDEFGHJKLMNPQRSTUVWXYZ23456789";
  };
  rate_limit = record {
    max_auth_attempts = 5;
    auth_window_seconds = 60;
    ban_after_attempts = 15;
    ban_duration_seconds = 300;
  };
  session = record {
    cleanup_interval_seconds = 60;
    grace_period_seconds = pos 300;
    retention_days = pos 30;
    audit_retention_days = pos 90;
  };
  portal = record {
    domain = lit "wifi.didicafe";
    admin_domain = lit "admin.didicafe";
    cafe_name = lit "Didicafe";
    welcome_message = [];
    theme_color = lit "#b45309";
    contact_phone = [];
    contact_name = [];
    contact_hours = [];
  };
  tls = record {
    enabled = true;
    cert_path = lit "cert.pem";
    key_path = lit "key.pem";
    admin_port = 8443;
  };
}

abbrev pub parts : Parts
parts = record { path = lit "/api/plans"; cookie_header = some (lit "didicafe_admin=old1") }

abbrev pub store : AdminSessionStore
store = record {
  sessions = (lit "old1", record { expires_at = 9_000; csrf_token = lit "c1" }) ∷ [];
  timeout = 3600;
}

abbrev pub to_string : ℕ → Str
to_string n = lit "8080"

-- Readings of which the statements' are one and two seconds after the first.
abbrev pub clock_at : ℕ → Clock
clock_at now = record {
  started = now;
  inserted = now + 1_000_000_000;
  redeemed = now + 2_000_000_000;
}
