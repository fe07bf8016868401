-- ===== src/Web/Extract.antt =====
-- src/web/extractors.rs: what is taken from a request before its handler runs: the administrator's
-- session, its form token, and the client's network identity. The answer of the neighbour lookup and
-- the clock reading are arguments.
use didicafe.Base.{
  ℕ, ◌<◌, ◌≡◌, refl, sym, ap, subst, ◌∙◌, ◌↔◌, Bool, true, false, Option, none, some, Str, lit,
  if◌then◌else◌, str_eq, Result, ok, err, arith, Option-cases, inl, inr,
}
use didicafe.Base.Map
use didicafe.RateLimit.{IpAddr}
use didicafe.AdminSession.{SessionData, AdminSessionStore, csrf_token_of}
use didicafe.AdminSession as Sessions
use didicafe.Config.{starts_with}
use didicafe.Mac.{is_valid_mac}
use didicafe.Portal.{ClientInfo}
use didicafe.Login.{extract_cookie, admin_cookie_name}
use didicafe.Web.{AppError, unauthorized, bad_request}

-- What the extractors read of a request.
pub record Parts : Type 0 where
  pub path : Str
  pub cookie_header : Option Str

abbrev pub refusal : Parts → AppError
refusal parts = unauthorized (starts_with parts.path (lit "/api/"))

-- A session that is not live is dropped from the store by the check.
abbrev pub validated :
    Parts → Str → Bool × AdminSessionStore → Result AppError Str × AdminSessionStore
validated parts session_id (true, store) = (ok session_id, store)
validated parts session_id (false, store) = (err (refusal parts), store)

abbrev pub of_cookie :
    Parts → Option Str → AdminSessionStore → ℕ → Result AppError Str × AdminSessionStore
of_cookie parts none store now = (err (refusal parts), store)
of_cookie parts (some session_id) store now =
    validated parts session_id (Sessions.validate store session_id now)

-- The identifier of the session that the request may use.
unfoldable pub session_of : Parts → AdminSessionStore → ℕ → Result AppError Str × AdminSessionStore
session_of parts store now =
    of_cookie parts (extract_cookie parts.cookie_header admin_cookie_name) store now

abbrev pub drop_id :
    Result AppError Str × AdminSessionStore → Result AppError (Unit {0}) × AdminSessionStore
drop_id (ok id, store) = (ok tt, store)
drop_id (err e, store) = (err e, store)

-- The extractor `AdminSession`.
unfoldable pub admin_session :
    Parts → AdminSessionStore → ℕ → Result AppError (Unit {0}) × AdminSessionStore
admin_session parts store now = drop_id (session_of parts store now)

abbrev pub token_of_id :
    Result AppError Str × AdminSessionStore → Result AppError Str × AdminSessionStore
token_of_id (ok id, store) = (ok (csrf_token_of store id), store)
token_of_id (err e, store) = (err e, store)

-- The extractor `CsrfToken`.
unfoldable pub csrf_token : Parts → AdminSessionStore → ℕ → Result AppError Str × AdminSessionStore
csrf_token parts store now = token_of_id (session_of parts store now)

unfoldable pub validate_mac_or_err : Option Str → Result AppError Str
validate_mac_or_err none = err (bad_request (lit "portal.error.device"))
validate_mac_or_err (some mac) =
    if is_valid_mac mac then ok mac else err (bad_request (lit "portal.error.device"))

abbrev pub with_ip : IpAddr → Result AppError Str → Result AppError ClientInfo
with_ip ip (ok mac) = ok (record { ip = ip; mac = mac })
with_ip ip (err e) = err e

-- The extractor `ClientInfo`, by the lookup's answer for the peer's address.
unfoldable pub client_info : IpAddr → Option Str → Result AppError ClientInfo
client_info ip found = with_ip ip (validate_mac_or_err found)

-- The cookie names a session of the store that has not expired.
abbrev pub IsLoggedIn : Parts → AdminSessionStore → ℕ → Type 0
IsLoggedIn parts store now =
    (id : Str) × (d : SessionData) × (extract_cookie parts.cookie_header admin_cookie_name
      ≡ some id)
    × (Map.get id store.sessions ≡ some d)
    × (now < d.expires_at)

live :
    (parts : Parts) (store : AdminSessionStore) (now : ℕ) (id : Str)
    → ((drop_id (validated parts id (Sessions.validate store id now))).0 ≡ ok tt)
      ↔ ((d : SessionData) × (Map.get id store.sessions ≡ some d) × (now < d.expires_at))
unfolding Sessions.validate
live parts store now id = elim (Option-cases (Map.get id store.sessions)) [
  | inl unknown ↦ (λ h. absurd (ground arith), λ (d, found, ahead). absurd (cc))
  | inr (d, found) ↦ (λ h. (d, found, ground arith), λ (d', found', ahead). ground arith)
]

cookie_session :
    (parts : Parts) (store : AdminSessionStore) (now : ℕ) (id : Str)
    → extract_cookie parts.cookie_header admin_cookie_name ≡ some id
    → admin_session parts store now ≡ drop_id (validated parts id (Sessions.validate store id now))
unfolding admin_session session_of
cookie_session parts store now id cookie = rw cookie refl

-- The extractor lets a request through exactly when its cookie names a live session.
pub admin_session-IsLoggedIn :
    (parts : Parts) (store : AdminSessionStore) (now : ℕ)
    → ((admin_session parts store now).0 ≡ ok tt) ↔ IsLoggedIn parts store now
unfolding admin_session session_of
admin_session-IsLoggedIn parts store now =
    elim (Option-cases (extract_cookie parts.cookie_header admin_cookie_name)) [
      | inl nothing ↦ (λ h. absurd (ground arith), λ (id, d, cookie, found, ahead). absurd cc)
      | inr (id, cookie) ↦
          let same = ap (λ r. r.0) (cookie_session parts store now id cookie) in
          (
            λ h.
                let (d, found, ahead) = (live parts store now id).0 (sym same ∙ h) in
                (id, d, cookie, found, ahead),
            λ (id', d, cookie', found, ahead).
                let one : id' ≡ id = ground (arith, cookie, cookie') in
                same
                ∙ (live parts store now id).1
                    (d, subst (λ i. Map.get i store.sessions ≡ some d) one found, ahead),
          )
    ]
