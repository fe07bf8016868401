-- ===== src/Web/Capport.antt =====
-- src/web/captive.rs: the answer of the captive portal API (RFC 8908). The neighbour lookup's answer and
-- the clock reading are arguments.
use didicafe.Base.{
  ℕ, Bool, true, false, not, Option, none, some, ltb, if◌then◌else◌, Str, Result, ok, err, ◌≡◌,
  refl, arith, ap, sym, ◌∙◌,
}
use didicafe.Config.{Config}
use didicafe.Db.Models.{Session, remaining_seconds}
use didicafe.Db.Sessions.{get_session_by_mac}
use didicafe.Firewall.{Firewall}
use didicafe.Mac.{is_valid_mac}
use didicafe.Portal.{portal_status}
use didicafe.Web.{internal, redirect_to, redirect_to_portal, portal_page_url, venue_info_url}
use didicafe.Web.Handler.{Handler, pure, ◌>>=◌, internally, continue, convert}
use didicafe.World.{World, ServiceError, query, query_ok}

pub record CapportResponse : Type 0 where
  pub captive : Bool
  pub user_portal_url : Str
  pub venue_info_url : Str
  pub can_extend_session : Bool
  pub seconds_remaining : Option ℕ

-- `lookup_mac(ip).filter(is_valid_mac)`
unfoldable pub resolve_client_mac : Option Str → Option Str
resolve_client_mac none = none
resolve_client_mac (some mac) = if is_valid_mac mac then some mac else none

module _ (fw : Firewall) (to_string : ℕ → Str) (config : Config) where
  abbrev pub body : Bool → Option ℕ → CapportResponse
  body captive seconds_remaining = record {
    captive = captive;
    user_portal_url = portal_page_url to_string config;
    venue_info_url = venue_info_url to_string config;
    can_extend_session = false;
    seconds_remaining = seconds_remaining;
  }

  -- The `match` on the session.
  abbrev pub body_of : ℕ → Option Session → CapportResponse
  body_of now none = body true none
  body_of now (some s) =
      if ltb 0 (remaining_seconds s.expires_at now)
      then body false (some (remaining_seconds s.expires_at now))
      else body true none

  abbrev pub find_session : Option Str → ℕ → Handler fw (Option Session)
  find_session none now = pure none
  find_session (some mac) now = internally (query (λ db. get_session_by_mac db mac now))

  unfoldable pub captive_api : Option Str → ℕ → Handler fw CapportResponse
  captive_api found now = do
    session ← find_session (resolve_client_mac found) now
    pure (body_of now session)

  -- The probes of the operating systems are sent to the very page that the API names.
  pub redirect_to_portal-portal_page_url :
      redirect_to_portal to_string config ≡ redirect_to (portal_page_url to_string config)
  unfolding redirect_to_portal portal_page_url
  redirect_to_portal-portal_page_url = refl

  -- A client that cannot be identified is told that it is captive, without a look at the database.
  pub captive_api_unknown :
      (found : Option Str) (now : ℕ) (w : World fw)
      → resolve_client_mac found ≡ none
      → captive_api found now w ≡ (ok (body true none), w)
  unfolding captive_api
  captive_api_unknown found now w h = rw h refl

  answered :
      (now : ℕ) (r : Result ServiceError (Option Session) × World fw) (answer : CapportResponse)
      → (continue (convert (λ e. internal) r) (λ (s : Option Session). pure (body_of now s))).0
        ≡ ok answer
      → (session : Option Session) × (r.0 ≡ ok session) × (body_of now session ≡ answer)
  answered now (ok session, w) answer h = (session, refl, ground arith)
  answered now (err e, w) answer h = absurd cc

  asked :
      (mac : Str) (now : ℕ) (w : World fw)
      → is_valid_mac mac ≡ true
      → captive_api (some mac) now w
        ≡ continue
            (convert (λ e. internal) (query (λ db. get_session_by_mac db mac now) w))
            (λ (s : Option Session). pure (body_of now s))
  unfolding captive_api resolve_client_mac
  asked mac now w valid = rw valid refl

  found_answer :
      (mac : Str) (now : ℕ) (w : World fw) (answer : CapportResponse)
      → is_valid_mac mac ≡ true
      → (captive_api (some mac) now w).0 ≡ ok answer
      → body_of now (get_session_by_mac w.db mac now) ≡ answer
  found_answer mac now w answer valid h =
      let looked = query (λ db. get_session_by_mac db mac now) w in
      let (session, found, same) =
        answered now looked answer (ap (λ x. x.0) (sym (asked mac now w valid)) ∙ h) in
      ap (body_of now) (sym (query_ok (λ db. get_session_by_mac db mac now) w session found)) ∙ same

  -- What the API answers a client is what the status page's poll answers it: captive exactly when the
  -- poll says that it is not connected, with the same remaining seconds.
  pub captive_api-portal_status :
      (mac : Str) (now : ℕ) (w : World fw) (answer : CapportResponse)
      → is_valid_mac mac ≡ true
      → (captive_api (some mac) now w).0 ≡ ok answer
      → let status = portal_status w.db mac now in
        (answer.captive ≡ not status.connected)
        × (answer.seconds_remaining
            ≡ (if status.connected then some status.remaining_seconds else none))
        × (answer.user_portal_url ≡ portal_page_url to_string config)
  unfolding portal_status
  captive_api-portal_status mac now w answer valid h =
      let same = found_answer mac now w answer valid h in ground (arith, same)
