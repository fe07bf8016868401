-- ===== src/Config/Sections.antt =====
-- src/config.rs: what each section of a configuration has to meet.
use didicafe.Base.{
  ℕ, ◌%◌, ◌≤◌, ◌<◌, ◌≡◌, ◌≢◌, ◌↔◌, ◌⊎◌, refl, Bool, true, false, Option, List, [], ◌∷◌, all, any,
  Str, Result, ok, arith, byte_len, ◌==◌, str_eq, lit,
}
use didicafe.Base.Int.{pos, ltb_ℤ}
use didicafe.Base.Results.{ensure_each, ◌>>◌}
use didicafe.RateLimit.{IpAddr, RateLimitConfig}
use didicafe.Config.{
  ServerConfig, AdminConfig, FirewallConfig, SessionConfig, PortalConfig, TlsConfig, interface_name,
  ConfigError, is_interface, is_identifier, is_domain, starts_with, known_weak_hashes,
  is_valid_hex_color,
}
use didicafe.Config.Check.{
  is_some, Checked, check_server, check_admin, check_firewall, check_token, check_rate_limit,
  check_session, check_portal, check_tls,
}
use didicafe.TokenCode.{TokenConfig}

ensure_each_iff {ℓ} :
    {A : Type ℓ} (p : A → Bool) (e : A → ConfigError) (xs : List A)
    (k : Result ConfigError (Unit {0}))
    → (ensure_each p e xs >> k ≡ ok tt) ↔ ((all p xs ≡ true) × (k ≡ ok tt))
ensure_each_iff p e [] k = (λ h. (refl, h), λ h. h.1)
ensure_each_iff p e (x ∷ xs) k = ground (arith, ensure_each_iff p e xs k)

abbrev pub IsServer : (Str → Option IpAddr) → ServerConfig → Type 0
IsServer parse_ip c =
    (1 ≤ c.port)
    × (c.port ≤ 65535)
    × (c.listen ≢ [])
    × (is_some (parse_ip c.listen) ≡ true)
    × (c.interfaces ≢ [])
    × (all is_interface c.interfaces ≡ true)

pub check_server-IsServer :
    (parse_ip : Str → Option IpAddr) (c : ServerConfig) (rest : Checked)
    → (check_server parse_ip c rest ≡ ok tt) ↔ (IsServer parse_ip c × (rest ≡ ok tt))
check_server-IsServer parse_ip c rest =
    ground (arith, ensure_each_iff is_interface interface_name c.interfaces rest)

abbrev pub IsAdmin : AdminConfig → Type 0
IsAdmin c =
    (c.username ≢ [])
    × (starts_with c.password_hash (lit "$argon2id$") ≡ true)
    × (any (λ known. known == c.password_hash) known_weak_hashes ≡ false)
    × (0 < c.session_timeout_seconds)

pub check_admin-IsAdmin :
    (c : AdminConfig) (rest : Checked) → (check_admin c rest ≡ ok tt) ↔ (IsAdmin c × (rest ≡ ok tt))
check_admin-IsAdmin c rest = ground (arith)

abbrev pub IsFirewall : FirewallConfig → Type 0
IsFirewall c =
    (c.nft_path ≢ []) × (is_identifier c.table_name ≡ true) × (is_identifier c.set_name ≡ true)

pub check_firewall-IsFirewall :
    (c : FirewallConfig) (rest : Checked)
    → (check_firewall c rest ≡ ok tt) ↔ (IsFirewall c × (rest ≡ ok tt))
check_firewall-IsFirewall c rest = ground (arith)

abbrev pub IsToken : TokenConfig → Type 0
IsToken c = (c.charset ≢ []) × (6 ≤ c.length) × (c.length % 2 ≡ 0) × (c.prefix ≢ [])

pub check_token-IsToken :
    (c : TokenConfig) (rest : Checked) → (check_token c rest ≡ ok tt) ↔ (IsToken c × (rest ≡ ok tt))
check_token-IsToken c rest = ground (arith)

abbrev pub IsRate : RateLimitConfig → Type 0
IsRate c =
    (0 < c.max_auth_attempts)
    × (0 < c.auth_window_seconds)
    × (c.max_auth_attempts ≤ c.ban_after_attempts)
    × (0 < c.ban_duration_seconds)

pub check_rate_limit-IsRate :
    (c : RateLimitConfig) (rest : Checked)
    → (check_rate_limit c rest ≡ ok tt) ↔ (IsRate c × (rest ≡ ok tt))
check_rate_limit-IsRate c rest = ground (arith)

abbrev pub IsSession : SessionConfig → Type 0
IsSession c =
    (0 < c.cleanup_interval_seconds)
    × (ltb_ℤ (pos 0) c.retention_days ≡ true)
    × (ltb_ℤ (pos 0) c.audit_retention_days ≡ true)

pub check_session-IsSession :
    (c : SessionConfig) (rest : Checked)
    → (check_session c rest ≡ ok tt) ↔ (IsSession c × (rest ≡ ok tt))
check_session-IsSession c rest = ground (arith)

abbrev pub IsPortal : PortalConfig → Type 0
IsPortal c =
    (c.domain ≢ [])
    × (is_domain c.domain ≡ true)
    × (c.admin_domain ≢ [])
    × (is_domain c.admin_domain ≡ true)
    × (c.domain ≢ c.admin_domain)
    × (c.cafe_name ≢ [])
    × (byte_len c.cafe_name ≤ 100)
    × (is_valid_hex_color c.theme_color ≡ true)

pub check_portal-IsPortal :
    (c : PortalConfig) (rest : Checked)
    → (check_portal c rest ≡ ok tt) ↔ (IsPortal c × (rest ≡ ok tt))
check_portal-IsPortal c rest = ground (arith, str_eq.equal_iff c.domain c.admin_domain)

-- The paths must be given once TLS is enabled.
abbrev pub IsTls : TlsConfig → ℕ → Type 0
IsTls c port =
    ((c.enabled ≡ false) ⊎ ((c.cert_path ≢ []) × (c.key_path ≢ [])))
    × (1 ≤ c.admin_port)
    × (c.admin_port ≤ 65535)
    × (c.admin_port ≢ port)

pub check_tls-IsTls :
    (c : TlsConfig) (port : ℕ) (rest : Checked)
    → (check_tls c port rest ≡ ok tt) ↔ (IsTls c port × (rest ≡ ok tt))
check_tls-IsTls c port rest = ground arith

pub each_all {ℓ} :
    {A : Type ℓ} (p : A → Bool) (e : A → ConfigError) (xs : List A)
    → ensure_each p e xs ≡ ok tt
    → all p xs ≡ true
each_all p e [] h = refl
each_all p e (x ∷ xs) h = ground (arith, each_all p e xs)

pub all_each {ℓ} :
    {A : Type ℓ} (p : A → Bool) (e : A → ConfigError) (xs : List A)
    → all p xs ≡ true
    → ensure_each p e xs ≡ ok tt
all_each p e [] h = refl
all_each p e (x ∷ xs) h = ground (arith, all_each p e xs)
