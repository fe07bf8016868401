-- ===== src/Db/Statements.antt =====
-- src/db/mod.rs: the statements that write, as one step of the database. A statement that breaks a
-- constraint changes nothing.
use didicafe.Base.{ℕ, Bool, Option, List, [], ◌∷◌, Str, Result, ok, err}
use didicafe.Base.Int.{ℤ}
use didicafe.Db.Tables.{Database, DbError}
use didicafe.Db.Plans.{create_plan, update_plan, set_setting}
use didicafe.Db.Tokens.{create_token, redeem_token, expire_token, revoke_token}
use didicafe.Db.Sessions.{
  create_session, expire_session, disconnect_session, purge_expired_sessions,
}
use didicafe.Db.Audit.{audit_log, purge_audit_log}

pub data Statement : Type 0 where
  creates_plan : Str → ℤ → ℤ → Statement
  updates_plan : ℕ → Str → ℤ → ℤ → Bool → Statement
  creates_token : Str → Option Str → ℕ → Statement
  redeems_token : ℕ → ℕ → Statement
  expires_token revokes_token : ℕ → Statement
  creates_session : ℕ → Str → Str → ℕ → Statement
  expires_session disconnects_session : ℕ → Statement
  purges_sessions purges_audit : ℕ → Statement
  logs : Str → Str → Option Str → Option ℕ → Option Str → Statement
  sets_setting : Str → Str → Statement

abbrev pub after_insert : Database → Result DbError (ℕ × Database) → Database
after_insert db (ok r) = r.1
after_insert db (err e) = db

unfoldable pub exec : Database → Statement × ℕ → Database
exec db (creates_plan name duration price, now) = (create_plan db name duration price now).1
exec db (updates_plan id name duration price active, now) =
    (update_plan db id name duration price active).1
exec db (creates_token code name plan_id, now) =
    after_insert db (create_token db code name plan_id now)
exec db (redeems_token id expires_at, now) = redeem_token db id expires_at now
exec db (expires_token id, now) = expire_token db id
exec db (revokes_token id, now) = revoke_token db id
exec db (creates_session token_id mac ip expires_at, now) =
    after_insert db (create_session db token_id mac ip expires_at now)
exec db (expires_session id, now) = expire_session db id
exec db (disconnects_session id, now) = disconnect_session db id
exec db (purges_sessions days, now) = (purge_expired_sessions db days now).1
exec db (purges_audit days, now) = (purge_audit_log db days now).1
exec db (logs user action target_type target_id detail, now) =
    audit_log db user action target_type target_id detail now
exec db (sets_setting key value, now) = set_setting db key value

unfoldable pub history : Database → List (Statement × ℕ) → Database
history db [] = db
history db (s ∷ statements) = history (exec db s) statements
