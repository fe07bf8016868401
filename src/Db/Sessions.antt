-- ===== src/Db/Sessions.antt =====
-- src/db/mod.rs: the statements about sessions. A clock reading is in nanoseconds.
use didicafe.Base.{
  ℕ, ◌+◌, ◌*◌, Bool, not, ◌&&◌, ◌||◌, Option, none, some, List, [], ◌∷◌, ◌++◌, ltb, eqb,
  if◌then◌else◌, ◌==◌, Str, str_eq, retain, any, Result, ok, err,
}
use didicafe.Db.Models.{
  TokenStatus, SessionStatus, Session, session_status_beq, token_status_beq, seconds,
}
use didicafe.Db.Tables.{
  Database, DbError, TokenRow, SessionRow, foreign_key_constraint, update_where, count_where,
  join_rows, session_view,
}

abbrev pub is_active : SessionRow → Bool
is_active s = session_status_beq s.status SessionStatus.active

-- `status = 'active' AND expires_at > datetime('now')`
abbrev pub is_live : ℕ → SessionRow → Bool
is_live now s = is_active s && ltb (seconds now) s.expires_at

abbrev pub set_session_status : SessionStatus → SessionRow → SessionRow
set_session_status status s = record s { status = status }

-- The transaction of `create_session`: both statements, or, where the token is missing, neither.
unfoldable pub create_session : Database → ℕ → Str → Str → ℕ → ℕ → Result DbError (ℕ × Database)
create_session db token_id mac ip expires_at now =
    if any (λ (t : TokenRow). eqb t.id token_id) db.tokens
    then ok (
      db.next_session,
      record db {
        sessions =
            update_where (λ s. (s.mac_address == mac) && is_active s)
              (set_session_status SessionStatus.disconnected) db.sessions
            ++ record {
              id = db.next_session;
              token_id = token_id;
              mac_address = mac;
              ip_address = ip;
              started_at = seconds now;
              expires_at = expires_at;
              status = SessionStatus.active;
            }
              ∷ [];
        next_session = db.next_session + 1;
      },
    )
    else err foreign_key_constraint

-- SESSION_ACTIVE
unfoldable pub get_active_sessions : Database → List Session
get_active_sessions db = join_rows (session_view db) (retain is_active db.sessions)

-- SESSION_LIVE
unfoldable pub get_live_sessions : Database → ℕ → List Session
get_live_sessions db now = join_rows (session_view db) (retain (is_live now) db.sessions)

unfoldable pub expire_session : Database → ℕ → Database
expire_session db session_id = record db {
  sessions =
      update_where (λ s. eqb s.id session_id) (set_session_status SessionStatus.expired)
        db.sessions;
}

unfoldable pub disconnect_session : Database → ℕ → Database
disconnect_session db session_id = record db {
  sessions =
      update_where (λ s. eqb s.id session_id) (set_session_status SessionStatus.disconnected)
        db.sessions;
}

-- `status IN ('expired', 'disconnected') AND started_at < datetime('now', '-N days')`
abbrev pub is_purgeable : ℕ → ℕ → SessionRow → Bool
is_purgeable retention_days now s =
    not (is_active s) && ltb (s.started_at + retention_days * 86400) (seconds now)

-- `status IN ('expired', 'revoked') AND id NOT IN (SELECT token_id FROM session)`
abbrev pub is_orphan : List SessionRow → TokenRow → Bool
is_orphan sessions t =
    (token_status_beq t.status TokenStatus.expired || token_status_beq t.status TokenStatus.revoked)
    && not (any (λ (s : SessionRow). eqb s.token_id t.id) sessions)

-- The two statements of the purge; the first answers the number of sessions that it deleted.
abbrev pub purge_sessions : Database → ℕ → ℕ → ℕ × Database
purge_sessions db retention_days now = (
  count_where (is_purgeable retention_days now) db.sessions,
  record db { sessions = retain (λ s. not (is_purgeable retention_days now s)) db.sessions },
)

abbrev pub purge_orphans : Database → Database
purge_orphans db = record db { tokens = retain (λ t. not (is_orphan db.sessions t)) db.tokens }

unfoldable pub purge_expired_sessions : Database → ℕ → ℕ → ℕ × Database
purge_expired_sessions db retention_days now =
    let (count, kept) = purge_sessions db retention_days now in (count, purge_orphans kept)

-- `ORDER BY s.id DESC LIMIT 1` over rows that stand in the order of their ids.
abbrev pub last_of {ℓ} : {A : Type ℓ} → List A → Option A
last_of [] = none
last_of (x ∷ []) = some x
last_of (x ∷ y ∷ xs) = last_of (y ∷ xs)

abbrev pub first_of_rows {ℓ} : {A : Type ℓ} → List A → Option A
first_of_rows [] = none
first_of_rows (x ∷ xs) = some x

-- SESSION_BY_MAC
unfoldable pub get_session_by_mac : Database → Str → ℕ → Option Session
get_session_by_mac db mac now = last_of (
    join_rows (session_view db) (retain (λ s. (s.mac_address == mac) && is_live now s) db.sessions))

-- SESSION_BY_ID
unfoldable pub get_session_by_id : Database → ℕ → Option Session
get_session_by_id db id =
    first_of_rows
      (join_rows (session_view db) (retain (λ (s : SessionRow). eqb s.id id) db.sessions))

-- SESSION_BY_TOKEN
unfoldable pub get_active_session_by_token : Database → ℕ → Option Session
get_active_session_by_token db token_id =
    first_of_rows (
      join_rows (session_view db)
        (retain (λ s. eqb s.token_id token_id && is_active s) db.sessions))
