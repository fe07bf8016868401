-- ===== src/SessionService/Create.antt =====
-- src/services/session.rs: what `create_session` leaves, when it succeeds and when it fails.
use didicafe.Base.{
  ℕ, ◌≡◌, ◌≢◌, refl, Bool, true, false, not, ◌&&◌, ◌||◌, none, some, List, [], ◌∷◌, eqb, all, ◌++◌,
  ◌==◌, str_eq, beq_refl, Str, Result, ok, err, arith,
}
use didicafe.Base.Int.{ℤ}
use didicafe.Db.Models.{seconds, SessionStatus, TokenStatus, token_status_beq}
use didicafe.Db.Tables.{Database, TokenRow, SessionRow, update_where, DbError}
use didicafe.Db.Tokens.{redeem_token}
use didicafe.Db.Sessions as Rows
use didicafe.Db.Active.{create_self, create-other, active_count, active_of, rows-create_session}
use didicafe.Db.Sessions.{set_session_status, is_active}
use didicafe.Db.Statements.{after_insert}
use didicafe.Firewall.{Firewall}
use didicafe.World.{World, ServiceError, execute, call}
use didicafe.SessionService.{Clock, create_session, expiry, timeout_of}

-- The tokens of this id are active until this moment.
abbrev pub is_redeemed : ℕ → ℕ → TokenRow → Bool
is_redeemed token_id until t =
    not (eqb t.id token_id)
    || (token_status_beq t.status TokenStatus.active
        && elim t.expires_at [ none ↦ false | some e ↦ eqb e until ])

-- Such a session of the MAC, unless it is no longer active.
abbrev pub is_created : ℕ → ℕ → Str → Str → ℕ → SessionRow → Bool
is_created id token_id mac ip until s =
    not (active_of mac s)
    || (eqb s.id id
        && (eqb s.token_id token_id && ((s.ip_address == ip) && eqb s.expires_at until)))

redeemed :
    (token_id until now : ℕ) (db : Database)
    → all (is_redeemed token_id until) (redeem_token db token_id until now).tokens ≡ true
unfolding redeem_token
redeemed token_id until now db = go db.tokens
  where
    go :
        (rows : List TokenRow)
        → all (is_redeemed token_id until) (
            update_where
              (λ (t : TokenRow). eqb t.id token_id)
              (λ t. record t {
                status = TokenStatus.active;
                redeemed_at = some (seconds now);
                expires_at = some until;
              })
              rows)
          ≡ true
    go [] = refl
    go (t ∷ rows) = ground (arith, go rows)

all-append :
    {A : Type 0} (p : A → Bool) (xs : List A) (y : A)
    → all p xs ≡ true
    → p y ≡ true
    → all p (xs ++ y ∷ []) ≡ true
all-append p [] y h k = ground arith
all-append p (x ∷ xs) y h k = ground (arith, all-append p xs y)

others_closed :
    (id token_id : ℕ) (mac ip : Str) (until : ℕ) (rows : List SessionRow)
    → all
        (is_created id token_id mac ip until)
        (update_where (active_of mac) (set_session_status SessionStatus.disconnected) rows)
      ≡ true
others_closed id token_id mac ip until [] = refl
others_closed id token_id mac ip until (s ∷ rows) =
    ground (arith, others_closed id token_id mac ip until rows)

module _ (fw : Firewall) (token_id : ℕ) (duration : ℤ) (mac ip : Str) (clock : Clock)
    (w w' : World fw) where
  -- A creation that fails, wherever it does, leaves every token as it was: no paid token is consumed.
  pub failed-tokens :
      (e : ServiceError)
      → create_session fw token_id duration mac ip clock w ≡ (err e, w')
      → w'.db.tokens ≡ w.db.tokens
  unfolding create_session execute call Rows.create_session
  failed-tokens e h = ground arith

  abbrev pub inserted : Result DbError (ℕ × Database)
  inserted = Rows.create_session w.db token_id mac ip (expiry clock.started duration) clock.inserted

  -- The two statements of a creation that succeeds.
  pub statements :
      (id : ℕ)
      → create_session fw token_id duration mac ip clock w ≡ (ok id, w')
      → (inserted ≡ ok (id, after_insert w.db inserted))
        × (w'.db
            ≡ redeem_token
                (after_insert w.db inserted)
                token_id
                (expiry clock.started duration)
                clock.redeemed)
        × (fw.authorize_client mac ip (timeout_of duration) w.firewall ≡ (ok tt, w'.firewall))
  unfolding create_session execute call Rows.create_session
  statements id h = ground arith

  -- After a creation that succeeds the MAC has exactly one active session: the one that is returned, of
  -- this token and IP, which expires `duration` minutes after the start. The token is active until that
  -- same moment, and the firewall has accepted the client for as many minutes.
  pub created :
      (id : ℕ)
      → create_session fw token_id duration mac ip clock w ≡ (ok id, w')
      → (active_count mac w'.db ≡ 1)
        × (all (is_created id token_id mac ip (expiry clock.started duration)) w'.db.sessions
            ≡ true)
        × (all (is_redeemed token_id (expiry clock.started duration)) w'.db.tokens ≡ true)
        × (fw.authorize_client mac ip (timeout_of duration) w.firewall ≡ (ok tt, w'.firewall))
  unfolding redeem_token
  created id h = (
    rw ((statements id h).1) (
        create_self w.db (after_insert w.db inserted) token_id id mac ip
          (expiry clock.started duration) clock.inserted (statements id h).0),
    rw ((statements id h).1) (
        rw
          (rows-create_session w.db (after_insert w.db inserted) token_id id mac ip
            (expiry clock.started duration) clock.inserted (statements id h).0)
          (all-append (is_created id token_id mac ip (expiry clock.started duration)) _ _
            (others_closed id token_id mac ip (expiry clock.started duration) w.db.sessions)
            (ground (arith, beq_refl mac, beq_refl ip)))),
    rw ((statements id h).1) (
        redeemed token_id (expiry clock.started duration) clock.redeemed
          (after_insert w.db inserted)),
    (statements id h).2,
  )

  -- The other MACs keep their active sessions.
  pub created_other :
      (id : ℕ) (other : Str)
      → mac ≢ other
      → create_session fw token_id duration mac ip clock w ≡ (ok id, w')
      → active_count other w'.db ≡ active_count other w.db
  unfolding redeem_token
  created_other id other apart h = rw ((statements id h).1) (
      create-other w.db (after_insert w.db inserted) token_id id mac ip
        (expiry clock.started duration) clock.inserted other apart (statements id h).0)
