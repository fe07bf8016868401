-- ===== src/Config/Check.antt =====
-- src/config.rs: `Config::validate`, by the sections of the configuration.
use didicafe.Base.{
  ℕ, ◌%◌, Bool, true, false, not, ◌&&◌, ◌||◌, Option, none, some, ltb, leb, eqb, ◌==◌, Str, lit,
  str_eq, byte_len, any, is_empty, Result,
}
use didicafe.Base.Int.{pos, ltb_ℤ}
use didicafe.Base.Results.{ensure, ensure_each, ◌>>◌}
use didicafe.RateLimit.{IpAddr, RateLimitConfig}
use didicafe.TokenCode.{TokenConfig}
use didicafe.Cidr.{parse_cidr}
use didicafe.Config.{
  ServerConfig, AdminConfig, FirewallConfig, SessionConfig, PortalConfig, TlsConfig, Config,
  ConfigError, server_port, listen_empty, listen_invalid, interfaces_empty, interface_name,
  database_path, username_empty, password_hash, password_known, session_timeout, nft_path,
  table_name, set_name, charset_empty, token_length, prefix_empty, max_attempts, window, ban_after,
  ban_duration, cleanup_interval, retention, audit_retention, domain_empty, domain_invalid,
  admin_domain_empty, admin_domain_invalid, same_domain, cafe_name_empty, cafe_name_long,
  theme_color, cert_path, key_path, admin_port, same_port, allowed_network, is_interface,
  is_identifier, is_domain, starts_with, known_weak_hashes, is_valid_hex_color, in_port_range,
}

abbrev pub is_some {ℓ} : {A : Type ℓ} → Option A → Bool
is_some none = false
is_some (some a) = true

abbrev pub Checked : Type 0
Checked = Result ConfigError (Unit {0})

abbrev pub check_admin : AdminConfig → Checked → Checked
check_admin c rest =
    ensure (not (is_empty c.username)) username_empty
    >> (ensure (starts_with c.password_hash (lit "$argon2id$")) password_hash
        >> (ensure (not (any (λ known. known == c.password_hash) known_weak_hashes)) password_known
            >> (ensure (ltb 0 c.session_timeout_seconds) session_timeout >> rest)))

abbrev pub check_firewall : FirewallConfig → Checked → Checked
check_firewall c rest =
    ensure (not (is_empty c.nft_path)) nft_path
    >> (ensure (is_identifier c.table_name) table_name
        >> (ensure (is_identifier c.set_name) set_name >> rest))

abbrev pub check_token : TokenConfig → Checked → Checked
check_token c rest =
    ensure (not (is_empty c.charset)) charset_empty
    >> (ensure (leb 6 c.length && eqb (c.length % 2) 0) token_length
        >> (ensure (not (is_empty c.prefix)) prefix_empty >> rest))

abbrev pub check_rate_limit : RateLimitConfig → Checked → Checked
check_rate_limit c rest =
    ensure (ltb 0 c.max_auth_attempts) max_attempts
    >> (ensure (ltb 0 c.auth_window_seconds) window
        >> (ensure (leb c.max_auth_attempts c.ban_after_attempts) ban_after
            >> (ensure (ltb 0 c.ban_duration_seconds) ban_duration >> rest)))

abbrev pub check_session : SessionConfig → Checked → Checked
check_session c rest =
    ensure (ltb 0 c.cleanup_interval_seconds) cleanup_interval
    >> (ensure (ltb_ℤ (pos 0) c.retention_days) retention
        >> (ensure (ltb_ℤ (pos 0) c.audit_retention_days) audit_retention >> rest))

abbrev pub check_portal : PortalConfig → Checked → Checked
check_portal c rest =
    ensure (not (is_empty c.domain)) domain_empty
    >> (ensure (is_domain c.domain) domain_invalid
        >> (ensure (not (is_empty c.admin_domain)) admin_domain_empty
            >> (ensure (is_domain c.admin_domain) admin_domain_invalid
                >> (ensure (not (c.domain == c.admin_domain)) same_domain
                    >> (ensure (not (is_empty c.cafe_name)) cafe_name_empty
                        >> (ensure (leb (byte_len c.cafe_name) 100) cafe_name_long
                            >> (ensure (is_valid_hex_color c.theme_color) theme_color >> rest)))))))

-- The paths are asked for only when TLS is enabled.
abbrev pub check_tls : TlsConfig → ℕ → Checked → Checked
check_tls c port rest =
    ensure (not c.enabled || not (is_empty c.cert_path)) cert_path
    >> (ensure (not c.enabled || not (is_empty c.key_path)) key_path
        >> (ensure (in_port_range c.admin_port) admin_port
            >> (ensure (not (eqb c.admin_port port)) same_port >> rest)))

module _ (parse_ip : Str → Option IpAddr) where
  abbrev pub check_server : ServerConfig → Checked → Checked
  check_server c rest =
      ensure (in_port_range c.port) server_port
      >> (ensure (not (is_empty c.listen)) listen_empty
          >> (ensure (is_some (parse_ip c.listen)) listen_invalid
              >> (ensure (not (is_empty c.interfaces)) interfaces_empty
                  >> (ensure_each is_interface interface_name c.interfaces >> rest))))

  unfoldable pub validate : Config → Checked
  validate c = check_server c.server (
      ensure (not (is_empty c.database.path)) database_path
      >> check_admin c.admin (
          check_firewall c.firewall (
            check_token c.token (
              check_rate_limit c.rate_limit (
                check_session c.session (
                  check_portal c.portal (
                    check_tls c.tls c.server.port (
                      ensure_each (λ cidr. is_some (parse_cidr parse_ip cidr)) allowed_network
                        c.admin.allowed_networks))))))))
