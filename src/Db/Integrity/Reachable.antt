-- ===== src/Db/Integrity/Reachable.antt =====
-- src/db/mod.rs: what every database that the statements can reach has.
use didicafe.Base.{ℕ, refl, ◌∙◌, List, [], ◌∷◌, str_eq, eqb, arith}
use didicafe.Db.Models.{SessionStatus, Plan}
use didicafe.Db.Tables.{Database, TokenRow, empty}
use didicafe.Db.Plans.{create_plan, update_plan, set_setting}
use didicafe.Db.Tokens.{redeem_token, expire_token, revoke_token}
use didicafe.Db.Sessions.{expire_session, disconnect_session}
use didicafe.Db.Audit.{audit_log, purge_audit_log}
use didicafe.Db.Rows.{any-update, any-append}
use didicafe.Db.Statements.{
  Statement, creates_plan, updates_plan, creates_token, redeems_token, expires_token, revokes_token,
  creates_session, expires_session, disconnects_session, purges_sessions, purges_audit, logs,
  sets_setting, exec, history,
}
use didicafe.Db.Integrity.{
  IsSound, empty-IsSound, update_tokens-IsSound, restatus-IsSound, create_token-IsSound,
  create_session-IsSound, plans-IsSound,
}
use didicafe.Db.Integrity.Purge.{purge-IsSound}

-- Every statement keeps the references and the counters: in particular the purge never deletes a
-- token that a session still names.
pub exec-IsSound : (db : Database) (s : Statement × ℕ) → IsSound db → IsSound (exec db s)
unfolding exec expire_session disconnect_session create_plan update_plan redeem_token expire_token
    revoke_token audit_log purge_audit_log set_setting
exec-IsSound db (creates_session token_id mac ip expires_at, now) v =
    create_session-IsSound db token_id mac ip expires_at now v
exec-IsSound db (expires_session id, now) v =
    restatus-IsSound db (λ s. eqb s.id id) SessionStatus.expired v
exec-IsSound db (disconnects_session id, now) v =
    restatus-IsSound db (λ s. eqb s.id id) SessionStatus.disconnected v
exec-IsSound db (purges_sessions days, now) v = purge-IsSound db days now v
exec-IsSound db (creates_plan name duration price, now) v =
    plans-IsSound db _ _ (λ id h. any-append (λ (p : Plan). eqb p.id id) db.plans _ ∙ ground arith)
      v
exec-IsSound db (updates_plan id name duration price active, now) v =
    plans-IsSound db _ db.next_plan
      (λ other h.
        any-update (λ (p : Plan). eqb p.id other) (λ (p : Plan). eqb p.id id) _ db.plans (λ p. refl)
        ∙ h)
      v
exec-IsSound db (creates_token code name plan_id, now) v =
    create_token-IsSound db code name plan_id now v
exec-IsSound db (redeems_token id expires_at, now) v =
    update_tokens-IsSound db (λ (t : TokenRow). eqb t.id id) _ (λ t. refl) (λ t. refl) v
exec-IsSound db (expires_token id, now) v =
    update_tokens-IsSound db (λ (t : TokenRow). eqb t.id id) _ (λ t. refl) (λ t. refl) v
exec-IsSound db (revokes_token id, now) v = update_tokens-IsSound db _ _ (λ t. refl) (λ t. refl) v
exec-IsSound db (purges_audit days, now) v = assumption
exec-IsSound db (logs user action target_type target_id detail, now) v = assumption
exec-IsSound db (sets_setting key value, now) v = assumption

history-IsSound :
    (db : Database) (statements : List (Statement × ℕ))
    → IsSound db
    → IsSound (history db statements)
unfolding history
history-IsSound db [] v = v
history-IsSound db (s ∷ statements) v = history-IsSound (exec db s) statements (exec-IsSound db s v)

-- In every database that the statements can reach from an empty one every session names a token that
-- is there, every token a plan, and every id is below its counter.
pub reachable-IsSound : (statements : List (Statement × ℕ)) → IsSound (history empty statements)
reachable-IsSound statements = history-IsSound empty statements empty-IsSound
