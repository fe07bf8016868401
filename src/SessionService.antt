-- ===== src/SessionService.antt =====
-- src/services/session.rs: sessions across the firewall and the database. Clock readings are in
-- nanoseconds. A creation and a migration read the clock again at each statement, which comes after
-- the firewall's process has run: their readings are a Clock.
pub mod Create
pub mod Found
pub mod Migrate
pub mod Cleanup
use didicafe.Base.{
  ℕ, zero, suc, ◌+◌, ◌-◌, ◌*◌, ◌^◌, Bool, Option, none, some, List, [], ◌∷◌, leb, if◌then◌else◌,
  Str, Result, ok, err,
}
use didicafe.Base.Int.{ℤ, pos, negsuc, neg, leb_ℤ, ltb_ℤ}
use didicafe.Db.Models.{Session, seconds, remaining_seconds}
use didicafe.Db.Tokens.{redeem_token, expire_token}
use didicafe.Db.Sessions as Rows
use didicafe.Db.Audit.{purge_audit_log}
use didicafe.Firewall.{Firewall}
use didicafe.World.{
  World, Action, ServiceError, session_not_found, no_active_session, already_expired, pure, fail,
  ◌>>=◌, ◌>>◌, execute, query, update, call, ignore,
}

-- The readings of one operation: `Utc::now()` at its start, and `datetime('now')` in the statement that
-- inserts the session and in the one that redeems the token.
pub record Clock : Type 0 where
  pub started : ℕ
  pub inserted : ℕ
  pub redeemed : ℕ

-- `Utc::now() + minutes`, formatted to whole seconds.
abbrev pub expiry : ℕ → ℤ → ℕ
expiry now (pos minutes) = seconds now + minutes * 60
expiry now (negsuc n) = seconds now - suc n * 60

-- `(duration_minutes * 60) as u64`
abbrev pub timeout_of : ℤ → ℕ
timeout_of (pos minutes) = minutes * 60
timeout_of (negsuc n) = 2 ^ 64 - suc n * 60

-- `remaining <= -grace`
abbrev pub is_due : ℤ → ℕ → Session → Bool
is_due grace now session = leb_ℤ (pos (remaining_seconds session.expires_at now)) (neg grace)

module _ (fw : Firewall) where
  unfoldable pub create_session : ℕ → ℤ → Str → Str → Clock → Action fw ℕ
  create_session token_id duration_minutes mac ip clock = do
    let expires_at = expiry clock.started duration_minutes
    call (fw.authorize_client mac ip (timeout_of duration_minutes))
    session_id ← execute (λ db. Rows.create_session db token_id mac ip expires_at clock.inserted)
    update (λ db. redeem_token db token_id expires_at clock.redeemed)
    pure session_id

  -- `ok_or_else(…)?`
  abbrev pub or_fail : {A : Type 0} → Option A → ServiceError → Action fw A
  or_fail none e = fail e
  or_fail (some a) e = pure a

  unfoldable pub disconnect : ℕ → Action fw (Unit {0})
  disconnect session_id = do
    found ← query (λ db. Rows.get_session_by_id db session_id)
    session ← or_fail found (session_not_found session_id)
    call (fw.deauthorize_client session.mac_address session.ip_address)
    update (λ db. Rows.disconnect_session db session_id)

  -- The part of `migrate_session` after its checks.
  unfoldable pub move_session : Session → ℕ → ℕ → Str → Str → Clock → Action fw ℕ
  move_session old remaining token_id new_mac new_ip clock = do
    ignore (call (fw.deauthorize_client old.mac_address old.ip_address))
    update (λ db. Rows.disconnect_session db old.id)
    call (fw.authorize_client new_mac new_ip remaining)
    execute (λ db. Rows.create_session db token_id new_mac new_ip old.expires_at clock.inserted)

  unfoldable pub migrate_session : ℕ → Str → Str → Clock → Action fw ℕ
  migrate_session token_id new_mac new_ip clock = do
    found ← query (λ db. Rows.get_active_session_by_token db token_id)
    old ← or_fail found (no_active_session token_id)
    let remaining = remaining_seconds old.expires_at clock.started
    (if leb remaining 0
        then fail (already_expired token_id)
        else move_session old remaining token_id new_mac new_ip clock)

  -- One round of the ticker's loop over the sessions, past its test.
  unfoldable pub expire_due : Session → Action fw (Unit {0})
  expire_due session = do
    call (fw.deauthorize_client session.mac_address session.ip_address)
    update (λ db. Rows.expire_session db session.id)
    update (λ db. expire_token db session.token_id)

  unfoldable pub expire_all : ℤ → ℕ → List Session → World fw → World fw
  expire_all grace now [] w = w
  expire_all grace now (session ∷ sessions) w =
      expire_all grace now sessions
        (if is_due grace now session then (expire_due session w).1 else w)

  -- 1. of a tick: expire the sessions whose time has elapsed.
  abbrev pub expire_listed : ℤ → ℕ → Result ServiceError (List Session) × World fw → World fw
  expire_listed grace now (ok sessions, w) = expire_all grace now sessions w
  expire_listed grace now (err e, w) = w

  unfoldable pub tick_sessions : ℤ → ℕ → World fw → World fw
  tick_sessions grace now w = expire_listed grace now (query Rows.get_active_sessions w)

  -- `Database::purge_expired_sessions`, whose second statement may fail after its first.
  unfoldable pub purge : ℕ → ℕ → Action fw (Unit {0})
  purge retention_days now = do
    count ← execute (λ db. ok (Rows.purge_sessions db retention_days now))
    update Rows.purge_orphans

  -- 2. of a tick: the hourly purge. The clock of the last purge is in nanoseconds.
  unfoldable pub tick_purge : ℕ → ℕ → ℕ → ℕ → World fw → ℕ × World fw
  tick_purge retention_days audit_retention_days last_purge now w =
      if leb (3600 * 1_000_000_000) (now - last_purge)
      then (let w1 = (purge retention_days now w).1 in
          (now, (execute (λ db. ok (purge_audit_log db audit_retention_days now)) w1).1))
      else (last_purge, w)

  -- One round of `cleanup_ticker`.
  unfoldable pub cleanup_tick : ℤ → ℕ → ℕ → ℕ → ℕ → World fw → ℕ × World fw
  cleanup_tick grace retention_days audit_retention_days last_purge now w =
      tick_purge retention_days audit_retention_days last_purge now (tick_sessions grace now w)

  -- src/main.rs: one round of the loop that restores the sessions at a start.
  unfoldable pub restore_one : ℤ → ℕ → Session → World fw → World fw
  restore_one grace now session w =
      let remaining = remaining_seconds session.expires_at now in
      if ltb_ℤ grace (pos remaining)
      then (call (fw.authorize_client session.mac_address session.ip_address remaining) w).1
      else (let expired =
            update (λ db. Rows.expire_session db session.id)
            >> update (λ db. expire_token db session.token_id) in
          (expired w).1)

  unfoldable pub restore_all : ℤ → ℕ → List Session → World fw → World fw
  restore_all grace now [] w = w
  restore_all grace now (session ∷ sessions) w =
      restore_all grace now sessions (restore_one grace now session w)

  -- src/main.rs: from the firewall's initialisation to the first purge.
  unfoldable pub start : ℤ → ℕ → ℕ → Action fw (Unit {0})
  start grace retention_days now = do
    call fw.init_ruleset
    sessions ← query Rows.get_active_sessions
    λ w. (ok tt, restore_all grace now sessions w)
    ignore (purge retention_days now)
