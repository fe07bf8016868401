-- ===== src/AdminSession.antt =====
-- src/services/admin_session.rs: the in-memory sessions of the administrator. The random values and
-- the clock reading are arguments.
pub mod Lifetime
use didicafe.Base.{
  ℕ, zero, suc, ◌+◌, ◌*◌, Bool, true, false, Option, none, some, List, [], ◌∷◌, ltb, if◌then◌else◌,
  ◌==◌, Str, lit, str_eq, pick_all,
}
use didicafe.Base.Map

abbrev pub session_id_len : ℕ
session_id_len = 32

abbrev pub session_charset : Str
session_charset = lit "ABCDEFGHIJKLMNOPQRSTUVWXYZabcdefghijklmnopqrstuvwxyz0123456789"

-- `draws` are the values of `rng.random_range(0..SESSION_CHARSET.len())`.
unfoldable pub generate_session_token : (ℕ → ℕ) → ℕ → Option Str
generate_session_token draws len = pick_all session_charset draws len

pub record SessionData : Type 0 where
  pub expires_at : ℕ
  pub csrf_token : Str

pub record AdminSessionStore : Type 0 where
  pub sessions : List (Str × SessionData)
  pub timeout : ℕ

unfoldable pub new : ℕ → AdminSessionStore
new timeout_seconds = record { sessions = []; timeout = timeout_seconds * 1_000_000_000 }

-- `session_id` and `csrf_token` are the two generated tokens.
unfoldable pub create : AdminSessionStore → Str → Str → ℕ → Str × AdminSessionStore
create s session_id csrf_token now = (
  session_id,
  record s {
    sessions =
        Map.insert session_id (record { expires_at = now + s.timeout; csrf_token = csrf_token })
          s.sessions;
  },
)

unfoldable pub csrf_token_of : AdminSessionStore → Str → Str
csrf_token_of s session_id = elim (Map.get session_id s.sessions) [
  | none ↦ []
  | some d ↦ d.csrf_token
]

unfoldable pub validate_csrf : AdminSessionStore → Str → Str → Bool
validate_csrf s session_id submitted = elim (Map.get session_id s.sessions) [
  | none ↦ false
  | some d ↦ d.csrf_token == submitted
]

unfoldable pub remove : AdminSessionStore → Str → AdminSessionStore
remove s session_id = record s { sessions = Map.remove session_id s.sessions }

unfoldable pub validate : AdminSessionStore → Str → ℕ → Bool × AdminSessionStore
unfolding remove
validate s session_id now = elim (Map.get session_id s.sessions) [
  | none ↦ (false, s)
  | some d ↦ if ltb now d.expires_at then (true, s) else (false, remove s session_id)
]
