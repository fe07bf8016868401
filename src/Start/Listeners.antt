-- ===== src/Start/Listeners.antt =====
-- src/main.rs, src/config.rs: the listeners of an accepted configuration.
use didicafe.Base.{
  ℕ, ◌≡◌, ◌≢◌, refl, ap, sym, drop, true, false, [], ◌∷◌, ◌++◌, Str, ok, arith, Option,
}
use didicafe.RateLimit.{IpAddr}
use didicafe.Config.{Config}
use didicafe.Config.Check.{validate}
use didicafe.Config.Accepted.{validate-IsAccepted}
use didicafe.Start.{Listener, portal, admin, address_of, listeners}

-- The tail behind a common front.
behind : (front s t : Str) → front ++ s ≡ front ++ t → s ≡ t
behind [] s t e = e
behind (c ∷ front) s t e = behind front s t (ground arith)

module _ (parse_ip : Str → Option IpAddr) (to_string : ℕ → Str)
    (injective : (a b : ℕ) → to_string a ≡ to_string b → a ≡ b) (config : Config) where
  -- With TLS enabled in an accepted configuration there are exactly two listeners, one that serves the
  -- portal and one that serves the administration over TLS, and their addresses differ; where numbers
  -- that differ are printed differently.
  pub listeners_apart :
      validate parse_ip config ≡ ok tt
      → config.tls.enabled ≡ true
      → (p : Listener) × (a : Listener) × (listeners to_string config ≡ p ∷ a ∷ [])
        × (p.routes ≡ portal)
        × (a.routes ≡ admin)
        × (a.over_tls ≡ true)
        × (p.address ≢ a.address)
  unfolding listeners
  listeners_apart valid enabled =
      let accepted = (validate-IsAccepted parse_ip config).0 valid in
      let apart = accepted.tls.3 in
      let front = config.server.listen in
      (
        record {
          address = address_of to_string front config.server.port;
          over_tls = false;
          routes = portal;
        },
        record {
          address = address_of to_string front config.tls.admin_port;
          over_tls = true;
          routes = admin;
        },
        rw enabled refl,
        refl,
        refl,
        refl,
        λ same. apart (
            sym (
              injective config.server.port config.tls.admin_port
                (ap (drop 1) (behind front _ _ same)))),
      )
