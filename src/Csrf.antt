-- ===== src/Csrf.antt =====
-- src/services/csrf.rs: the server-side CSRF tokens of the portal form (keyed by client MAC) and of
-- the login form (keyed by client IP). The random token and the clock reading are arguments; keys
-- are ASCII, so `to_lowercase` is the ASCII one.
pub mod Tokens
pub mod Replay
use didicafe.Base.{
  ℕ, ◌-◌, ◌*◌, Bool, false, Option, none, some, List, [], ◌∷◌, ltb, if◌then◌else◌, ◌==◌, Str,
  str_eq, to_lowercase,
}
use didicafe.Base.Map

-- `CSRF_TOKEN_TTL_SECS`, as a `Duration` in nanoseconds
abbrev pub csrf_token_ttl : ℕ
csrf_token_ttl = 600 * 1_000_000_000

pub record CsrfEntry : Type 0 where
  pub token : Str
  pub created_at : ℕ

pub record PortalCsrfStore : Type 0 where
  pub tokens : List (Str × CsrfEntry)

unfoldable pub new : PortalCsrfStore
new = record { tokens = [] }

-- The closure of `retain` in `generate`.
abbrev pub keep_fresh : ℕ → CsrfEntry → Option CsrfEntry
keep_fresh now entry = if ltb (now - entry.created_at) csrf_token_ttl then some entry else none

-- `token` is what `generate_session_token(32)` returns.
unfoldable pub generate : PortalCsrfStore → Str → ℕ → Str → Str × PortalCsrfStore
generate s mac now token =
    let kept = Map.retain (keep_fresh now) s.tokens in
    (
      token,
      record {
        tokens = Map.insert (to_lowercase mac) (record { token = token; created_at = now }) kept;
      },
    )

unfoldable pub get_or_generate : PortalCsrfStore → Str → ℕ → Str → Str × PortalCsrfStore
unfolding generate
get_or_generate s mac now fresh = elim (Map.get (to_lowercase mac) s.tokens) [
  | none ↦ generate s mac now fresh
  | some entry ↦
      if ltb (now - entry.created_at) csrf_token_ttl
      then (entry.token, s)
      else generate s mac now fresh
]

-- What `validate` answers for the entry that it removed.
abbrev pub accepts : Option CsrfEntry → Str → ℕ → Bool
accepts none submitted now = false
accepts (some entry) submitted now =
    if ltb csrf_token_ttl (now - entry.created_at) then false else entry.token == submitted

unfoldable pub validate : PortalCsrfStore → Str → Str → ℕ → Bool × PortalCsrfStore
validate s mac submitted now = (
  accepts (Map.get (to_lowercase mac) s.tokens) submitted now,
  record { tokens = Map.remove (to_lowercase mac) s.tokens },
)

unfoldable pub get : PortalCsrfStore → Str → Option Str
get s mac = elim (Map.get (to_lowercase mac) s.tokens) [ none ↦ none | some e ↦ some e.token ]

unfoldable pub set : PortalCsrfStore → Str → Str → ℕ → PortalCsrfStore
set s mac token now = record {
  tokens = Map.insert (to_lowercase mac) (record { token = token; created_at = now }) s.tokens;
}
