-- ===== src/SessionService/Migrate.antt =====
-- src/services/session.rs: what `migrate_session` leaves, when it succeeds and when the firewall
-- refuses the new client.
use didicafe.Base.{
  ℕ, ◌≡◌, refl, Bool, true, not, ◌&&◌, ◌||◌, none, some, List, [], ◌∷◌, eqb, all, any, retain, ◌==◌,
  str_eq, Str, Result, ok, err, arith, beq_refl,
}
use didicafe.Db.Models.{Session, SessionStatus}
use didicafe.Db.Tables.{Database, DbError, SessionRow, update_where}
use didicafe.Db.Rows.{any-append}
use didicafe.Db.Sessions as Rows
use didicafe.Db.Sessions.{is_active, set_session_status, disconnect_session}
use didicafe.Db.Active.{active_count, create_self, rows-create_session}
use didicafe.Firewall.{Firewall}
use didicafe.World.{ServiceError, World, execute, call, firewall_error, no_active_session}
use didicafe.SessionService.{Clock, migrate_session, move_session}

abbrev pub is_moved : ℕ → Str → ℕ → SessionRow → Bool
is_moved id mac until s =
    eqb s.id id && ((s.mac_address == mac) && (eqb s.expires_at until && is_active s))

-- No active session of this token but the one with this id.
abbrev pub is_only : ℕ → ℕ → SessionRow → Bool
is_only token_id id s = not (eqb s.token_id token_id && is_active s) || eqb s.id id

closed_none :
    (db : Database) (token_id id : ℕ)
    → all (is_only token_id id) db.sessions ≡ true
    → Rows.get_active_session_by_token (disconnect_session db id) token_id ≡ none
unfolding disconnect_session Rows.get_active_session_by_token
closed_none db token_id id only = rw (go db.sessions only) refl
  where
    go :
        (rows : List SessionRow)
        → all (is_only token_id id) rows ≡ true
        → retain
            (λ s. eqb s.token_id token_id && is_active s)
            (update_where (λ s. eqb s.id id) (set_session_status SessionStatus.disconnected) rows)
          ≡ []
    go [] h = refl
    go (s ∷ rows) h = ground (arith, go rows)

-- Whatever a migration answers, the tokens are as they were.
pub migrate-tokens :
    (fw : Firewall) (token_id : ℕ) (mac ip : Str) (clock : Clock) (w w' : World fw)
    (result : Result ServiceError ℕ)
    → migrate_session fw token_id mac ip clock w ≡ (result, w')
    → w'.db.tokens ≡ w.db.tokens
unfolding migrate_session move_session execute call Rows.create_session disconnect_session
migrate-tokens fw token_id mac ip clock w w' result h = ground arith

module _ (fw : Firewall) (token_id : ℕ) (mac ip : Str) (clock : Clock) (w w' : World fw)
    (old : Session) where
  abbrev closed : Database
  closed = disconnect_session w.db old.id

  abbrev inserted : Result DbError (ℕ × Database)
  inserted = Rows.create_session closed token_id mac ip old.expires_at clock.inserted

  statements :
      (id : ℕ)
      → Rows.get_active_session_by_token w.db token_id ≡ some old
      → migrate_session fw token_id mac ip clock w ≡ (ok id, w')
      → (inserted ≡ ok (id, w'.db)) × (w'.db.tokens ≡ w.db.tokens)
  unfolding migrate_session move_session execute call Rows.create_session disconnect_session
  statements id found h = ground arith

  -- A migration that succeeds consumes no token: the client's new MAC has exactly one active session,
  -- the one that is returned, and it ends when the old session was to end.
  pub migrated :
      (id : ℕ)
      → Rows.get_active_session_by_token w.db token_id ≡ some old
      → migrate_session fw token_id mac ip clock w ≡ (ok id, w')
      → (w'.db.tokens ≡ w.db.tokens)
        × (active_count mac w'.db ≡ 1)
        × (any (is_moved id mac old.expires_at) w'.db.sessions ≡ true)
  migrated id found h = (
    (statements id found h).1,
    create_self closed w'.db token_id id mac ip old.expires_at clock.inserted
        (statements id found h).0,
    rw
        (
          rows-create_session closed w'.db token_id id mac ip old.expires_at clock.inserted
              (statements id found h).0,
          any-append,
        )
        (ground (arith, beq_refl mac)),
  )

  refused_db :
      (e : Str)
      → Rows.get_active_session_by_token w.db token_id ≡ some old
      → migrate_session fw token_id mac ip clock w ≡ (err (firewall_error e), w')
      → w'.db ≡ closed
  unfolding migrate_session move_session execute call
  refused_db e found h = ground arith

  -- When the firewall refuses the new client, the migration has already closed the old session: if
  -- that was the token's only active session, every later migration of this token answers that it has
  -- none, although the token's row is as it was.
  pub stranded :
      (e mac' ip' : Str) (clock' : Clock)
      → Rows.get_active_session_by_token w.db token_id ≡ some old
      → all (is_only token_id old.id) w.db.sessions ≡ true
      → migrate_session fw token_id mac ip clock w ≡ (err (firewall_error e), w')
      → w'.io ≡ []
      → (migrate_session fw token_id mac' ip' clock' w' ≡ (err (no_active_session token_id), w'))
        × (w'.db.tokens ≡ w.db.tokens)
  unfolding migrate_session execute disconnect_session
  stranded e mac' ip' clock' found only h none_fail =
      let same = refused_db e found h in
      let gone : Rows.get_active_session_by_token w'.db token_id ≡ none =
        rw same (closed_none w.db token_id old.id only) in
      (ground arith, rw same refl)
