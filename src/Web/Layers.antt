-- ===== src/Web/Layers.antt =====
-- src/web/mod.rs: the layers around the routes. `HeaderValue::from_str` is a parameter.
use didicafe.Base.{
  ℕ, Bool, true, false, ◌||◌, Option, none, some, List, [], ◌∷◌, ◌++◌, any, is_empty, if◌then◌else◌,
  Str, lit,
}
use didicafe.RateLimit.{IpAddr}
use didicafe.Cidr.{ip_in_cidr}
use didicafe.Config.{Config, starts_with}
use didicafe.Web.{Response, insert_header, text_response, capport_api_url}

-- What the layers read of a request.
pub record HttpRequest : Type 0 where
  pub path : Str
  pub peer : IpAddr

-- `Next::run` of what stands inside a layer; its state is threaded through.
abbrev pub Service : Type 0 → Type 0
Service S = HttpRequest → S → Response × S

-- The headers of every answer.
abbrev pub security_policy : List (Str × Str)
security_policy =
    (lit "X-Content-Type-Options", lit "nosniff")
    ∷ (lit "X-Frame-Options", lit "DENY")
    ∷ (
      lit "Content-Security-Policy",
      lit
          "default-src 'self'; script-src 'self'; style-src 'self' 'unsafe-inline'; img-src 'self'; font-src 'self'; connect-src 'self'; frame-ancestors 'none'; base-uri 'self'; form-action 'self'",
    )
    ∷ (lit "Referrer-Policy", lit "strict-origin-when-cross-origin")
    ∷ (lit "X-XSS-Protection", lit "0")
    ∷ (lit "Permissions-Policy", lit "camera=(), microphone=(), geolocation=(), payment=(), usb=()")
    ∷ []

abbrev pub insert_headers : List (Str × Str) → Response → Response
insert_headers [] r = r
insert_headers ((name, value) ∷ rest) r = insert_headers rest (insert_header name value r)

abbrev pub is_sensitive : Str → Bool
is_sensitive path = starts_with path (lit "/admin") || starts_with path (lit "/api")

-- What caches are told of a path that is sensitive, of a static one and of another.
abbrev pub cache_headers : Bool → Bool → List (Str × Str)
cache_headers true is_static =
    (lit "Cache-Control", lit "no-store, no-cache, must-revalidate")
    ∷ (lit "Pragma", lit "no-cache")
    ∷ []
cache_headers false true = (lit "Cache-Control", lit "public, no-cache") ∷ []
cache_headers false false = []

abbrev pub cache_policy : Str → List (Str × Str)
cache_policy path = cache_headers (is_sensitive path) (starts_with path (lit "/static"))

-- A layer that only adds headers to the answer.
abbrev pub with_headers : {S : Type 0} → (HttpRequest → List (Str × Str)) → Service S → Service S
with_headers policy next request s =
    let (response, s') = next request s in (insert_headers (policy request) response, s')

unfoldable pub security_headers : {S : Type 0} → Service S → Service S
security_headers = with_headers (λ request. security_policy ++ cache_policy request.path)

unfoldable pub hsts_header : {S : Type 0} → Service S → Service S
hsts_header =
    with_headers (λ request. (lit "Strict-Transport-Security", lit "max-age=63072000") ∷ [])

module _ (to_string : ℕ → Str) (from_str : Str → Option Str) (config : Config) where
  abbrev pub captive_portal_header_value : Option Str
  captive_portal_header_value = from_str (b'<' ∷ (capport_api_url to_string config ++ b'>' ∷ []))

  abbrev pub captive_portal_policy : List (Str × Str)
  captive_portal_policy = elim captive_portal_header_value [
    | none ↦ []
    | some value ↦ (lit "Captive-Portal", value) ∷ []
  ]

  unfoldable pub captive_portal_header : {S : Type 0} → Service S → Service S
  captive_portal_header = with_headers (λ request. captive_portal_policy)

module _ (parse_ip : Str → Option IpAddr) (config : Config) where
  -- The addresses that may reach the administration.
  abbrev pub is_allowed : IpAddr → Bool
  is_allowed ip =
      is_empty config.admin.allowed_networks
      || any (λ cidr. ip_in_cidr parse_ip ip cidr) config.admin.allowed_networks

  unfoldable pub admin_network_filter : {S : Type 0} → Service S → Service S
  admin_network_filter next request s =
      if is_allowed request.peer
      then next request s
      else (text_response 403 (lit "access denied"), s)
