-- ===== src/Config/Accepted.antt =====
-- src/config.rs: which configurations pass, and what a configuration that passes assures.
use didicafe.Base.{
  ◌^◌, ◌<◌, ◌≡◌, ◌≢◌, ◌↔◌, true, not, Option, [], ◌∷◌, all, is_empty, Str, ok, arith, str_eq,
}
use didicafe.Base.Results.{ensure, ensure_each, ensure_iff, ◌>>◌}
use didicafe.RateLimit.{IpAddr, RateLimiter, check_and_record, new, run, Calls}
use didicafe.RateLimit.View.{IsValid}
use didicafe.RateLimit.Bounds.{new-IsValid, check-IsValid}
use didicafe.Cidr.{parse_cidr}
use didicafe.Config.{allowed_network, database_path, Config}
use didicafe.Config.Check.{
  validate, is_some, Checked, check_admin, check_firewall, check_token, check_rate_limit,
  check_session, check_portal, check_tls,
}
use didicafe.Config.Sections.{
  IsServer, check_server-IsServer, IsAdmin, check_admin-IsAdmin, IsFirewall,
  check_firewall-IsFirewall, IsToken, check_token-IsToken, IsRate, check_rate_limit-IsRate,
  IsSession, check_session-IsSession, IsPortal, check_portal-IsPortal, IsTls, check_tls-IsTls,
  each_all, all_each,
}

-- What the comments and the messages of the source ask of a configuration.
pub record IsAccepted (parse_ip : Str → Option IpAddr) (c : Config) : Type 0 where
  pub server : IsServer parse_ip c.server
  pub database : c.database.path ≢ []
  pub admin : IsAdmin c.admin
  pub firewall : IsFirewall c.firewall
  pub token : IsToken c.token
  pub rate_limit : IsRate c.rate_limit
  pub session : IsSession c.session
  pub portal : IsPortal c.portal
  pub tls : IsTls c.tls c.server.port
  pub networks : all (λ cidr. is_some (parse_cidr parse_ip cidr)) c.admin.allowed_networks ≡ true

module _ (parse_ip : Str → Option IpAddr) (c : Config) where
  -- The checks that are left after each section.
  abbrev after_tls : Checked
  after_tls =
      ensure_each (λ cidr. is_some (parse_cidr parse_ip cidr)) allowed_network
        c.admin.allowed_networks

  abbrev after_portal : Checked
  after_portal = check_tls c.tls c.server.port after_tls

  abbrev after_session : Checked
  after_session = check_portal c.portal after_portal

  abbrev after_rate_limit : Checked
  after_rate_limit = check_session c.session after_session

  abbrev after_token : Checked
  after_token = check_rate_limit c.rate_limit after_rate_limit

  abbrev after_firewall : Checked
  after_firewall = check_token c.token after_token

  abbrev after_admin : Checked
  after_admin = check_firewall c.firewall after_firewall

  abbrev after_server : Checked
  after_server =
      ensure (not (is_empty c.database.path)) database_path >> check_admin c.admin after_admin

  accepted : validate parse_ip c ≡ ok tt → IsAccepted parse_ip c
  unfolding validate
  accepted h =
      let (server, h1) = (check_server-IsServer parse_ip c.server after_server).0 h in
      let (path, h2) =
        (ensure_iff (not (is_empty c.database.path)) database_path (check_admin c.admin after_admin)
            tt).0
          h1 in
      let (admin, h3) = (check_admin-IsAdmin c.admin after_admin).0 h2 in
      let (firewall, h4) = (check_firewall-IsFirewall c.firewall after_firewall).0 h3 in
      let (token, h5) = (check_token-IsToken c.token after_token).0 h4 in
      let (rate_limit, h6) = (check_rate_limit-IsRate c.rate_limit after_rate_limit).0 h5 in
      let (session, h7) = (check_session-IsSession c.session after_session).0 h6 in
      let (portal, h8) = (check_portal-IsPortal c.portal after_portal).0 h7 in
      let (tls, h9) = (check_tls-IsTls c.tls c.server.port after_tls).0 h8 in
      record {
        server = server;
        database = ground (arith, path);
        admin = admin;
        firewall = firewall;
        token = token;
        rate_limit = rate_limit;
        session = session;
        portal = portal;
        tls = tls;
        networks =
            each_all (λ cidr. is_some (parse_cidr parse_ip cidr)) allowed_network
              c.admin.allowed_networks h9;
      }

  IsAccepted-validate : IsAccepted parse_ip c → validate parse_ip c ≡ ok tt
  unfolding validate
  IsAccepted-validate a =
      let h9 =
        all_each (λ cidr. is_some (parse_cidr parse_ip cidr)) allowed_network
          c.admin.allowed_networks a.networks in
      let h8 = (check_tls-IsTls c.tls c.server.port after_tls).1 (a.tls, h9) in
      let h7 = (check_portal-IsPortal c.portal after_portal).1 (a.portal, h8) in
      let h6 = (check_session-IsSession c.session after_session).1 (a.session, h7) in
      let h5 = (check_rate_limit-IsRate c.rate_limit after_rate_limit).1 (a.rate_limit, h6) in
      let h4 = (check_token-IsToken c.token after_token).1 (a.token, h5) in
      let h3 = (check_firewall-IsFirewall c.firewall after_firewall).1 (a.firewall, h4) in
      let h2 = (check_admin-IsAdmin c.admin after_admin).1 (a.admin, h3) in
      let given : not (is_empty c.database.path) ≡ true = ground (arith, a.database) in
      let h1 =
        (ensure_iff (not (is_empty c.database.path)) database_path (check_admin c.admin after_admin)
            tt).1
          (given, h2) in
      (check_server-IsServer parse_ip c.server after_server).1 (a.server, h1)

  -- The configurations that the program starts with are exactly those that meet every requirement
  -- of their fields, whatever text is an IP address.
  pub validate-IsAccepted : (validate parse_ip c ≡ ok tt) ↔ IsAccepted parse_ip c
  validate-IsAccepted = (accepted, IsAccepted-validate)

run-IsValid : (s : RateLimiter) (calls : Calls) → IsValid s → IsValid (run s calls)
unfolding run
run-IsValid s [] v = v
run-IsValid s ((ip, now) ∷ calls) v =
    run-IsValid (check_and_record s ip now).1 calls (check-IsValid s ip now v)

-- A limiter that starts with an accepted configuration keeps its invariant through any calls: no
-- address ever has as many timestamps as the threshold for a ban, and no address stands twice.
pub run-new-IsValid :
    (parse_ip : Str → Option IpAddr) (c : Config) (calls : Calls)
    → c.rate_limit.ban_after_attempts < 2 ^ 32
    → validate parse_ip c ≡ ok tt
    → IsValid (run (new c.rate_limit) calls)
run-new-IsValid parse_ip c calls u32 h =
    let a = (accepted parse_ip c h).rate_limit in
    run-IsValid (new c.rate_limit) calls (
      new-IsValid c.rate_limit (record {
        max_positive = a.0;
        window_positive = a.1;
        ban_above = a.2;
        ban_u32 = u32;
        duration_positive = a.3;
      }))
