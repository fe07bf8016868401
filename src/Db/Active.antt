-- ===== src/Db/Active.antt =====
-- src/db/mod.rs: a MAC never has two active sessions.
use didicafe.Base.{
  ℕ, ◌≤◌, ◌≡◌, ◌≢◌, refl, Bool, false, ◌&&◌, List, [], ◌∷◌, ◌++◌, ◌==◌, Str, str_eq, eqb, arith,
  Bool-cases, inl, inr, beq_refl, beq_ne, Result, ok, err,
}
use didicafe.Db.Models.{SessionStatus, seconds}
use didicafe.Db.Tables.{Database, SessionRow, update_where, count_where, empty, DbError}
use didicafe.Db.Sessions.{
  is_active, set_session_status, create_session, expire_session, disconnect_session,
  purge_expired_sessions,
}
use didicafe.Db.Rows.{
  count-append, count-retain-le, count-update-le, count-update_none, count-update_same,
}
use didicafe.Db.Plans.{create_plan, update_plan, set_setting}
use didicafe.Db.Tokens.{create_token, redeem_token, expire_token, revoke_token}
use didicafe.Db.Audit.{audit_log, purge_audit_log}
use didicafe.Db.Statements.{
  Statement, creates_plan, updates_plan, creates_token, redeems_token, expires_token, revokes_token,
  creates_session, expires_session, disconnects_session, purges_sessions, purges_audit, logs,
  sets_setting, exec, history, after_insert,
}

abbrev pub active_of : Str → SessionRow → Bool
active_of mac s = (s.mac_address == mac) && is_active s

abbrev pub active_count : Str → Database → ℕ
active_count mac db = count_where (active_of mac) db.sessions

abbrev pub IsOneActive : Database → Type 0
IsOneActive db = (mac : Str) → active_count mac db ≤ 1

-- The disconnecting update of `create_session`, seen by the MAC itself and by another one.
disconnected_none :
    (mac : Str) (rows : List SessionRow)
    → count_where
        (active_of mac)
        (update_where (active_of mac) (set_session_status SessionStatus.disconnected) rows)
      ≡ 0
disconnected_none mac rows = count-update_none (active_of mac) _ rows (λ s. ground arith)

disconnected-le :
    (mac other : Str) (rows : List SessionRow)
    → count_where
        (active_of other)
        (update_where (active_of mac) (set_session_status SessionStatus.disconnected) rows)
      ≤ count_where (active_of other) rows
disconnected-le mac other rows =
    count-update-le (active_of other) (active_of mac) _ rows (λ s. ground arith)

disconnected_ne :
    (mac other : Str) (rows : List SessionRow)
    → mac ≢ other
    → count_where
        (active_of other)
        (update_where (active_of mac) (set_session_status SessionStatus.disconnected) rows)
      ≡ count_where (active_of other) rows
disconnected_ne mac other rows ne =
    count-update_same (active_of other) (active_of mac) _ rows (λ s h.
      ground (arith, str_eq.equal_iff s.mac_address mac, str_eq.equal_iff s.mac_address other))

module _ (db db' : Database) (token_id id : ℕ) (mac ip : Str) (expires_at now : ℕ) where
  abbrev pub new_row : SessionRow
  new_row = record {
    id = id;
    token_id = token_id;
    mac_address = mac;
    ip_address = ip;
    started_at = seconds now;
    expires_at = expires_at;
    status = SessionStatus.active;
  }

  -- The rows that a successful `create_session` leaves.
  pub rows-create_session :
      create_session db token_id mac ip expires_at now ≡ ok (id, db')
      → db'.sessions
        ≡ update_where (active_of mac) (set_session_status SessionStatus.disconnected) db.sessions
          ++ new_row ∷ []
  unfolding create_session
  rows-create_session e = ground arith

  pub create_self :
      create_session db token_id mac ip expires_at now ≡ ok (id, db') → active_count mac db' ≡ 1
  create_self e =
      rw (rows-create_session e, count-append)
        (ground (arith, disconnected_none mac db.sessions, beq_refl mac))

  pub create-other :
      (other : Str)
      → mac ≢ other
      → create_session db token_id mac ip expires_at now ≡ ok (id, db')
      → active_count other db' ≡ active_count other db
  create-other other ne e =
      rw (rows-create_session e, count-append)
        (ground (arith, disconnected_ne mac other db.sessions ne, beq_ne mac other ne))

-- Once a session is created its MAC has exactly one active session, whatever it had before, and
-- every other MAC has as many active sessions as it had.
pub active_count-create_session :
    (db db' : Database) (token_id id : ℕ) (mac ip other : Str) (expires_at now : ℕ)
    → mac ≢ other
    → create_session db token_id mac ip expires_at now ≡ ok (id, db')
    → (active_count mac db' ≡ 1) × (active_count other db' ≡ active_count other db)
active_count-create_session db db' token_id id mac ip other expires_at now ne e = (
  create_self db db' token_id id mac ip expires_at now e,
  create-other db db' token_id id mac ip expires_at now other ne e,
)

create-IsOneActive :
    (db : Database) (token_id : ℕ) (mac ip : Str) (expires_at now : ℕ)
    → IsOneActive db
    → IsOneActive (after_insert db (create_session db token_id mac ip expires_at now))
create-IsOneActive db token_id mac ip expires_at now v =
    go (create_session db token_id mac ip expires_at now) refl
  where
    go :
        (r : Result DbError (ℕ × Database))
        → create_session db token_id mac ip expires_at now ≡ r
        → IsOneActive (after_insert db r)
    go (err e) h = v
    go (ok (id, db')) h = λ other. elim (Bool-cases (mac == other)) [
      | inl same ↦
          rw (← (str_eq.equal_iff mac other).0 same)
            (omega (arith, create_self db db' token_id id mac ip expires_at now h))
      | inr ne ↦
          let apart : mac ≢ other = λ e. ground (arith, str_eq.equal_iff mac other) in
          omega
            (arith, create-other db db' token_id id mac ip expires_at now other apart h, v other)
    ]

-- A statement that makes no session active anew.
fewer :
    (db db' : Database)
    → ((mac : Str) → active_count mac db' ≤ active_count mac db)
    → IsOneActive db
    → IsOneActive db'
fewer db db' h v mac = omega (arith, h mac, v mac)

restatus-le :
    (mac : Str) (id : ℕ) (status : SessionStatus) (rows : List SessionRow)
    → ((s : SessionRow) → is_active (set_session_status status s) ≡ false)
    → count_where (active_of mac) (update_where (λ s. eqb s.id id) (set_session_status status) rows)
      ≤ count_where (active_of mac) rows
restatus-le mac id status rows h =
    count-update-le (active_of mac) (λ s. eqb s.id id) (set_session_status status) rows
      (λ s. ground (arith, h s))

-- No statement, whatever its arguments, gives a MAC two active sessions.
pub exec-IsOneActive :
    (db : Database) (s : Statement × ℕ) → IsOneActive db → IsOneActive (exec db s)
unfolding exec expire_session disconnect_session purge_expired_sessions create_plan update_plan
    create_token redeem_token expire_token revoke_token audit_log purge_audit_log set_setting
exec-IsOneActive db (creates_session token_id mac ip expires_at, now) v =
    create-IsOneActive db token_id mac ip expires_at now v
exec-IsOneActive db (expires_session id, now) v =
    fewer db (exec db (expires_session id, now))
      (λ mac. restatus-le mac id SessionStatus.expired db.sessions (λ s. ground arith)) v
exec-IsOneActive db (disconnects_session id, now) v =
    fewer db (exec db (disconnects_session id, now))
      (λ mac. restatus-le mac id SessionStatus.disconnected db.sessions (λ s. ground arith)) v
exec-IsOneActive db (purges_sessions days, now) v =
    fewer db (exec db (purges_sessions days, now))
      (λ mac. count-retain-le (active_of mac) _ db.sessions) v
exec-IsOneActive db (creates_plan name duration price, now) v = v
exec-IsOneActive db (updates_plan id name duration price active, now) v = v
exec-IsOneActive db (creates_token code name plan_id, now) v = λ mac. ground (arith, v mac)
exec-IsOneActive db (redeems_token id expires_at, now) v = v
exec-IsOneActive db (expires_token id, now) v = v
exec-IsOneActive db (revokes_token id, now) v = v
exec-IsOneActive db (purges_audit days, now) v = v
exec-IsOneActive db (logs user action target_type target_id detail, now) v = v
exec-IsOneActive db (sets_setting key value, now) v = v

history-IsOneActive :
    (db : Database) (statements : List (Statement × ℕ))
    → IsOneActive db
    → IsOneActive (history db statements)
unfolding history
history-IsOneActive db [] v = v
history-IsOneActive db (s ∷ statements) v =
    history-IsOneActive (exec db s) statements (exec-IsOneActive db s v)

-- In every database that the statements can reach from an empty one, in any order and with any
-- arguments, each MAC has at most one active session.
pub reachable-IsOneActive :
    (statements : List (Statement × ℕ)) (mac : Str)
    → active_count mac (history empty statements) ≤ 1
reachable-IsOneActive statements mac = history-IsOneActive empty statements (λ m. omega arith) mac
