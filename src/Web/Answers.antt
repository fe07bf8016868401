-- ===== src/Web/Answers.antt =====
-- src/web/mod.rs: what holds of every answer of a router, whatever its handlers answer.
use didicafe.Base.{
  ℕ, ◌≡◌, ◌∙◌, refl, sym, Bool, true, false, Option, some, List, [], ◌∷◌, ◌++◌, if◌then◌else◌, Str,
  lit, str_eq, list_beq, ◌==◌, to_lowercase, arith, strip_prefix,
}
use didicafe.Base.Map.{get-insert}
use didicafe.RateLimit.{IpAddr}
use didicafe.Config.{Config, starts_with}
use didicafe.Web.{Response, header, insert_header}
use didicafe.Web.Layers.{
  HttpRequest, Service, insert_headers, security_policy, cache_headers, cache_policy, is_sensitive,
  with_headers, security_headers, hsts_header, admin_network_filter, is_allowed,
}
use didicafe.Web.Routes.{
  Table, portal_router, admin_router, combined_router, admin_routes, api_routes,
}

-- The value that a name has once a policy's headers are written over what was there.
abbrev overwritten : Str → List (Str × Str) → Option Str → Option Str
overwritten name [] before = before
overwritten name ((n, value) ∷ rest) before =
    overwritten name rest (if to_lowercase n == to_lowercase name then some value else before)

header-insert_headers :
    (name : Str) (policy : List (Str × Str)) (r : Response)
    → header name (insert_headers policy r) ≡ overwritten name policy (header name r)
header-insert_headers name [] r = refl
header-insert_headers name ((n, value) ∷ rest) r =
    rw (sym (get-insert (to_lowercase n) (to_lowercase name) value r.headers))
      (header-insert_headers name rest (insert_header n value r))

insert_headers-same :
    (policy : List (Str × Str)) (r : Response)
    → ((insert_headers policy r).status ≡ r.status) × ((insert_headers policy r).body ≡ r.body)
insert_headers-same [] r = (refl, refl)
insert_headers-same ((n, value) ∷ rest) r = insert_headers-same rest (insert_header n value r)

-- An answer that no cache keeps and no frame shows.
abbrev pub IsUncached : Response → Type 0
IsUncached r =
    (header (lit "Cache-Control") r ≡ some (lit "no-store, no-cache, must-revalidate"))
    × (header (lit "Pragma") r ≡ some (lit "no-cache"))
    × (header (lit "X-Frame-Options") r ≡ some (lit "DENY"))
    × (header (lit "X-Content-Type-Options") r ≡ some (lit "nosniff"))

sensitive_policy :
    (path : Str) → is_sensitive path ≡ true → cache_policy path ≡ cache_headers true false
sensitive_policy path h = rw h refl

security_headers-IsUncached :
    {S : Type 0} (next : Service S) (request : HttpRequest) (s : S)
    → is_sensitive request.path ≡ true
    → IsUncached (security_headers next request s).0
unfolding security_headers list_beq strip_prefix
security_headers-IsUncached next request s h =
    let policy = security_policy ++ cache_headers true false in
    let inner = (next request s).0 in
    rw (sensitive_policy request.path h) (
      header-insert_headers (lit "Cache-Control") policy inner,
      header-insert_headers (lit "Pragma") policy inner,
      header-insert_headers (lit "X-Frame-Options") policy inner,
      header-insert_headers (lit "X-Content-Type-Options") policy inner,
    )

-- A layer of headers leaves the status, the body and the state.
with_headers-same :
    {S : Type 0} (policy : HttpRequest → List (Str × Str)) (next : Service S)
    (request : HttpRequest) (s : S)
    → ((with_headers policy next request s).0.status ≡ (next request s).0.status)
      × ((with_headers policy next request s).0.body ≡ (next request s).0.body)
      × ((with_headers policy next request s).1 ≡ (next request s).1)
with_headers-same policy next request s =
    let (status, body) = insert_headers-same (policy request) (next request s).0 in
    (status, body, refl)

-- The cache's headers are not the transport's.
cache_headers-transport :
    (sensitive static : Bool) (before : Option Str)
    → overwritten (lit "Strict-Transport-Security") (cache_headers sensitive static) before ≡ before
unfolding list_beq
cache_headers-transport true static before = refl
cache_headers-transport false true before = refl
cache_headers-transport false false before = refl

abbrev IsSame : {S : Type 0} → Response × S → Response × S → Type 0
IsSame (r, s) (r', s') = (r.status ≡ r'.status) × (r.body ≡ r'.body) × (s ≡ s')

security_headers-IsSame :
    {S : Type 0} (next : Service S) (request : HttpRequest) (s : S)
    → IsSame (security_headers next request s) (next request s)
unfolding security_headers
security_headers-IsSame next request s =
    with_headers-same (λ request. security_policy ++ cache_policy request.path) next request s

hsts_header-IsSame :
    {S : Type 0} (next : Service S) (request : HttpRequest) (s : S)
    → IsSame (hsts_header next request s) (next request s)
unfolding hsts_header
hsts_header-IsSame next request s = (refl, refl, refl)

hsts_header-transport :
    {S : Type 0} (next : Service S) (request : HttpRequest) (s : S)
    → header (lit "Strict-Transport-Security") (hsts_header next request s).0
      ≡ some (lit "max-age=63072000")
unfolding hsts_header list_beq
hsts_header-transport next request s =
    header-insert_headers (lit "Strict-Transport-Security")
      ((lit "Strict-Transport-Security", lit "max-age=63072000") ∷ []) (next request s).0

filter-same :
    {S : Type 0} (parse_ip : Str → Option IpAddr) (config : Config) (next : Service S)
    (request : HttpRequest) (s : S)
    → let answer = admin_network_filter parse_ip config next request s in
      let inner = next request s in
      let allowed = is_allowed parse_ip config request.peer in
      (answer.0.status ≡ (if allowed then inner.0.status else 403))
      × (answer.0.body ≡ (if allowed then inner.0.body else lit "access denied"))
      × (answer.1 ≡ (if allowed then inner.1 else s))
unfolding admin_network_filter
filter-same parse_ip config next request s = ground arith

security_headers-transport :
    {S : Type 0} (next : Service S) (request : HttpRequest) (s : S)
    → header (lit "Strict-Transport-Security") (security_headers next request s).0
      ≡ header (lit "Strict-Transport-Security") (next request s).0
unfolding security_headers list_beq
security_headers-transport next request s =
    let name = lit "Strict-Transport-Security" in
    let inner = (next request s).0 in
    header-insert_headers name (security_policy ++ cache_policy request.path) inner
    ∙ cache_headers-transport (is_sensitive request.path) (starts_with request.path (lit "/static"))
        (header name inner)

module _ {S : Type 0} (dispatch : Table → Str → Service S) (to_string : ℕ → Str)
    (from_str : Str → Option Str) (parse_ip : Str → Option IpAddr) (config : Config)
    (request : HttpRequest) (s : S) where
  -- No answer under `/admin` or `/api` may be cached or framed, from whichever router it comes and
  -- whatever the handler wrote in these headers; the refusal of an address is no exception.
  pub routers-IsUncached :
      is_sensitive request.path ≡ true
      → IsUncached (portal_router dispatch to_string from_str parse_ip config request s).0
        × IsUncached (admin_router dispatch to_string from_str parse_ip config request s).0
        × IsUncached (combined_router dispatch to_string from_str parse_ip config request s).0
  unfolding portal_router admin_router combined_router
  routers-IsUncached h = (
    security_headers-IsUncached _ request s h,
    security_headers-IsUncached _ request s h,
    security_headers-IsUncached _ request s h,
  )

  -- The administration's router serves an address that the networks take as its routes do, and answers
  -- 403 to any other without running a handler; either way the answer asks for HTTPS.
  pub admin_router-filter :
      let answer = admin_router dispatch to_string from_str parse_ip config request s in
      let inner = dispatch (admin_routes ++ api_routes) (lit "/admin/login") request s in
      let allowed = is_allowed parse_ip config request.peer in
      (answer.0.status ≡ (if allowed then inner.0.status else 403))
      × (answer.0.body ≡ (if allowed then inner.0.body else lit "access denied"))
      × (answer.1 ≡ (if allowed then inner.1 else s))
      × (header (lit "Strict-Transport-Security") answer.0 ≡ some (lit "max-age=63072000"))
  unfolding admin_router
  admin_router-filter =
      let filtered =
        admin_network_filter parse_ip config
          (dispatch (admin_routes ++ api_routes) (lit "/admin/login")) in
      let (status, body, state) = security_headers-IsSame (hsts_header filtered) request s in
      let (status', body', state') = hsts_header-IsSame filtered request s in
      let (status'', body'', state'') =
        filter-same parse_ip config (dispatch (admin_routes ++ api_routes) (lit "/admin/login"))
          request s in
      (
        status ∙ (status' ∙ status''),
        body ∙ (body' ∙ body''),
        state ∙ (state' ∙ state''),
        security_headers-transport (hsts_header filtered) request s
            ∙ hsts_header-transport filtered request s,
      )
