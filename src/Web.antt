-- ===== src/Web.antt =====
-- src/web/error.rs, src/web/captive.rs, src/web/cpd.rs: answers of HTTP and the addresses that the
-- portal gives out. Printing a number is a parameter.
pub mod Layers
pub mod Routes
pub mod Answers
pub mod Capport
pub mod Extract
pub mod Handler
pub mod Message
pub mod Answered
pub mod Input
use didicafe.Base.{
  ℕ, Bool, Option, none, some, List, [], ◌∷◌, ◌++◌, eqb, if◌then◌else◌, Str, lit, str_eq,
  to_lowercase,
}
use didicafe.Base.Map.{get, insert}
use didicafe.Config.{Config}

-- A status, the headers, of which no name stands twice, and a text body.
pub record Response : Type 0 where
  pub status : ℕ
  pub headers : List (Str × Str)
  pub body : Str

-- `HeaderMap::insert`, which keeps names in lower case.
abbrev pub insert_header : Str → Str → Response → Response
insert_header name value r = record r { headers = insert (to_lowercase name) value r.headers }

-- `HeaderMap::get`
abbrev pub header : Str → Response → Option Str
header name r = get (to_lowercase name) r.headers

-- `Redirect::to` answers 303.
abbrev pub redirect_to : Str → Response
redirect_to location = record { status = 303; headers = (lit "location", location) ∷ []; body = [] }

pub data AppError : Type 0 where
  database firewall : Str → AppError
  unauthorized : Bool → AppError
  not_found bad_request : Str → AppError
  rate_limited : Option ℕ → AppError
  internal : AppError

abbrev pub text_response : ℕ → Str → Response
text_response status body = record { status = status; headers = []; body = body }

module _ (to_string : ℕ → Str) where
  abbrev pub retry_after : Option ℕ → Response → Response
  retry_after none r = r
  retry_after (some secs) r = insert_header (lit "Retry-After") (to_string secs) r

  unfoldable pub into_response : AppError → Response
  into_response (database e) = text_response 500 (lit "error.internal")
  into_response (firewall e) = text_response 500 (lit "error.internal")
  into_response (unauthorized api_path) =
      if api_path
      then text_response 401 (lit "{\"error\":\"authentication required\"}")
      else redirect_to (lit "/admin/login")
  into_response (not_found detail) = text_response 404 detail
  into_response (bad_request detail) = text_response 400 detail
  into_response (rate_limited seconds) =
      retry_after seconds (text_response 429 (lit "error.rate_limit"))
  into_response internal = text_response 500 (lit "error.internal")

  abbrev pub build_portal_url : Config → Str → Str
  build_portal_url config path =
      if eqb config.server.port 80
      then lit "http://" ++ (config.portal.domain ++ path)
      else lit "http://"
        ++ (config.portal.domain ++ (b':' ∷ (to_string config.server.port ++ path)))

  unfoldable pub portal_page_url : Config → Str
  portal_page_url config = build_portal_url config (lit "/portal")

  unfoldable pub venue_info_url : Config → Str
  venue_info_url config = build_portal_url config (lit "/portal/plans")

  unfoldable pub capport_api_url : Config → Str
  capport_api_url config = build_portal_url config (lit "/api/captive")

  -- The location that the probes of the operating systems are sent to.
  unfoldable pub redirect_to_portal : Config → Response
  redirect_to_portal config = redirect_to (
      if eqb config.server.port 80
      then lit "http://" ++ (config.portal.domain ++ lit "/portal")
      else lit "http://"
        ++ (config.portal.domain ++ (b':' ∷ (to_string config.server.port ++ lit "/portal"))))
