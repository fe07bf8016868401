-- ===== src/Db/Models.antt =====
-- src/db/models.rs: the records that queries return, and the texts of their statuses. A moment that
-- the source keeps as `YYYY-MM-DD HH:MM:SS` is its number of seconds since the epoch.
use didicafe.Base.{
  ℕ, ◌+◌, ◌-◌, ◌*◌, ◌/◌, Bool, true, false, Option, none, some, ltb, leb, if◌then◌else◌, ◌==◌, ◌≡◌,
  ◌↔◌, Str, lit, list_beq, str_eq, arith, refl,
}
use didicafe.Base.Int.{ℤ}

pub data TokenStatus : Type 0 where
  unused active expired revoked : TokenStatus

pub data SessionStatus : Type 0 where
  active expired disconnected : SessionStatus

-- `Display`
unfoldable pub display_token : TokenStatus → Str
display_token TokenStatus.unused = lit "unused"
display_token TokenStatus.active = lit "active"
display_token TokenStatus.expired = lit "expired"
display_token TokenStatus.revoked = lit "revoked"

unfoldable pub display_session : SessionStatus → Str
display_session SessionStatus.active = lit "active"
display_session SessionStatus.expired = lit "expired"
display_session SessionStatus.disconnected = lit "disconnected"

-- `try_from_str`, which is `from_str` without the message.
unfoldable pub parse_token : Str → Option TokenStatus
parse_token s =
    if s == lit "unused"
    then some TokenStatus.unused
    else if s == lit "active"
    then some TokenStatus.active
    else if s == lit "expired"
    then some TokenStatus.expired
    else if s == lit "revoked"
    then some TokenStatus.revoked
    else none

unfoldable pub parse_session : Str → Option SessionStatus
parse_session s =
    if s == lit "active"
    then some SessionStatus.active
    else if s == lit "expired"
    then some SessionStatus.expired
    else if s == lit "disconnected"
    then some SessionStatus.disconnected
    else none

-- The derived `PartialEq`.
abbrev pub token_status_beq : TokenStatus → TokenStatus → Bool
token_status_beq TokenStatus.unused TokenStatus.unused = true
token_status_beq TokenStatus.active TokenStatus.active = true
token_status_beq TokenStatus.expired TokenStatus.expired = true
token_status_beq TokenStatus.revoked TokenStatus.revoked = true
token_status_beq _ _ = false

abbrev pub session_status_beq : SessionStatus → SessionStatus → Bool
session_status_beq SessionStatus.active SessionStatus.active = true
session_status_beq SessionStatus.expired SessionStatus.expired = true
session_status_beq SessionStatus.disconnected SessionStatus.disconnected = true
session_status_beq _ _ = false

pub record Plan : Type 0 where
  pub id : ℕ
  pub name : Str
  pub duration_minutes : ℤ
  pub price_ariary : ℤ
  pub active : Bool
  pub created_at : ℕ

pub record Token : Type 0 where
  pub id : ℕ
  pub code : Str
  pub name : Option Str
  pub plan_id : ℕ
  pub status : TokenStatus
  pub created_at : ℕ
  pub redeemed_at : Option ℕ
  pub expires_at : Option ℕ
  pub duration_minutes : ℤ
  pub plan_name : Str

pub record Session : Type 0 where
  pub id : ℕ
  pub token_id : ℕ
  pub mac_address : Str
  pub ip_address : Str
  pub started_at : ℕ
  pub expires_at : ℕ
  pub status : SessionStatus
  pub token_code : Option Str
  pub token_name : Option Str
  pub plan_name : Option Str

pub record AuditLogEntry : Type 0 where
  pub id : ℕ
  pub timestamp : ℕ
  pub admin_user : Str
  pub action : Str
  pub target_type : Option Str
  pub target_id : Option ℕ
  pub detail : Option Str

-- `datetime('now')` of a clock reading in nanoseconds.
abbrev pub seconds : ℕ → ℕ
seconds now = now / 1_000_000_000

-- `Session::remaining_seconds`: the whole seconds from `now` (nanoseconds) to a stored moment, and 0
-- once it has passed. The stored text is always in the format, so the parse does not fail.
abbrev pub remaining_seconds : ℕ → ℕ → ℕ
remaining_seconds expires_at now = (expires_at * 1_000_000_000 - now) / 1_000_000_000

-- The page arithmetic of `TokenPage` and `AuditPage`; counts and pages are not negative.
abbrev pub total_pages : ℕ → ℕ → ℕ
total_pages total per_page = if leb per_page 0 then 1 else (total + per_page - 1) / per_page

abbrev pub has_prev : ℕ → Bool
has_prev page = ltb 1 page

abbrev pub has_next : ℕ → ℕ → ℕ → Bool
has_next total per_page page = ltb page (total_pages total per_page)

parse_display_token : (s : TokenStatus) → parse_token (display_token s) ≡ some s
unfolding parse_token display_token list_beq
parse_display_token TokenStatus.unused = refl
parse_display_token TokenStatus.active = refl
parse_display_token TokenStatus.expired = refl
parse_display_token TokenStatus.revoked = refl

parsed_token : (s : TokenStatus) (t : Str) → parse_token t ≡ some s → t ≡ display_token s
unfolding parse_token display_token
parsed_token s t e = ground (
  arith,
  str_eq.equal_iff t (lit "unused"),
  str_eq.equal_iff t (lit "active"),
  str_eq.equal_iff t (lit "expired"),
  str_eq.equal_iff t (lit "revoked"),
)

-- Exactly the texts that `Display` writes are read back, each to the status that it stands for.
pub parse-display_token :
    (s : TokenStatus) (t : Str) → (parse_token t ≡ some s) ↔ (t ≡ display_token s)
parse-display_token s t = (parsed_token s t, λ e. rw e (parse_display_token s))
