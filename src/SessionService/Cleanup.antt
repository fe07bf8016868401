-- ===== src/SessionService/Cleanup.antt =====
-- src/services/session.rs: what a round of `cleanup_ticker` expires.
use didicafe.Base.{
  ℕ, suc, ◌≡◌, refl, Bool, true, false, not, ◌&&◌, ◌||◌, Option, none, some, List, [], ◌∷◌, eqb,
  all, any, retain, find, if◌then◌else◌, Str, Result, ok, err, arith, All,
}
use didicafe.Base.Int.{ℤ, pos, neg, leb_ℤ}
use didicafe.Db.Models.{Session, SessionStatus, Plan, remaining_seconds}
use didicafe.Db.Tables.{
  Database, SessionRow, TokenRow, update_where, session_view, join_rows, token_by_id, plan_by_id,
}
use didicafe.Db.Sessions.{is_active, set_session_status, expire_session, get_active_sessions}
use didicafe.Db.Tokens.{expire_token}
use didicafe.Db.Integrity.{IsSound, has_token, has_plan}
use didicafe.Firewall.{Firewall}
use didicafe.World.{World, ServiceError, execute, call}
use didicafe.SessionService.{tick_sessions, expire_all, expire_due, is_due, expire_listed}

module _ (fw : Firewall) where
  all_kept :
      (g now : ℕ) (sessions : List Session) (w : World fw)
      → expire_all fw (pos (suc g)) now sessions w ≡ w
  unfolding expire_all
  all_kept g now [] w = refl
  all_kept g now (s ∷ sessions) w = rw (all_kept g now sessions) (ground arith)

  listed_kept :
      (g now : ℕ) (r : Result ServiceError (List Session) × World fw)
      → expire_listed fw (pos (suc g)) now r ≡ r.1
  listed_kept g now (ok sessions, w) = all_kept g now sessions w
  listed_kept g now (err e, w) = refl

  -- With a grace period of a second or more a round of the ticker expires nothing, whatever the
  -- sessions and the clock: it leaves the database and the firewall as they were.
  pub positive_grace :
      (g now : ℕ) (w : World fw)
      → ((tick_sessions fw (pos (suc g)) now w).db ≡ w.db)
        × ((tick_sessions fw (pos (suc g)) now w).firewall ≡ w.firewall)
  unfolding tick_sessions execute
  positive_grace g now w = rw (listed_kept g now) (ground arith)

-- The ticker's test, on a row.
abbrev pub row_due : ℤ → ℕ → SessionRow → Bool
row_due grace now s = leb_ℤ (pos (remaining_seconds s.expires_at now)) (neg grace)

-- A row that is not both active and due, or that is still to come.
abbrev awaits : ℤ → ℕ → List Session → SessionRow → Bool
awaits grace now sessions s =
    not (is_active s && row_due grace now s)
    || any (λ (x : Session). eqb x.id s.id && is_due grace now x) sessions

expire_awaits :
    (grace : ℤ) (now : ℕ) (x : Session) (sessions : List Session) (rows : List SessionRow)
    → all (awaits grace now (x ∷ sessions)) rows ≡ true
    → all (awaits grace now sessions) (
        if is_due grace now x
        then update_where (λ s. eqb s.id x.id) (set_session_status SessionStatus.expired) rows
        else rows)
      ≡ true
expire_awaits grace now x sessions [] h = ground arith
expire_awaits grace now x sessions (s ∷ rows) h =
    ground (arith, expire_awaits grace now x sessions rows)

abbrev holds {ℓ} : {A : Type ℓ} → (A → Bool) → Option A → Bool
holds p none = false
holds p (some x) = p x

holds-find {ℓ} :
    {A : Type ℓ} (q p : A → Bool) (xs : List A)
    → All (λ x. q x ≡ true) xs
    → any p xs ≡ true
    → holds q (find p xs) ≡ true
holds-find q p [] h e = ground arith
holds-find q p (x ∷ xs) h e = ground (arith, h.0, holds-find q p xs h.1)

All-true {ℓ} : {A : Type ℓ} (xs : List A) → All (λ _. true ≡ true) xs
All-true [] = tt
All-true (x ∷ xs) = (refl, All-true xs)

plan_seen :
    (db : Database) (id : ℕ)
    → has_plan db.plans id ≡ true
    → holds (λ _. true) (plan_by_id db id) ≡ true
plan_seen db id = holds-find (λ _. true) (λ (p : Plan). eqb p.id id) db.plans (All-true db.plans)

abbrev is_view : SessionRow → Session → Bool
is_view s x = eqb x.id s.id && eqb x.expires_at s.expires_at

-- Every row of a sound database is seen by a query, with its id and its end.
holds-session_view :
    (db : Database) (s : SessionRow)
    → IsSound db
    → has_token db.tokens s.token_id ≡ true
    → holds (is_view s) (session_view db s) ≡ true
unfolding session_view
holds-session_view db s v h = go (token_by_id db s.token_id) (
    holds-find (λ (t : TokenRow). has_plan db.plans t.plan_id)
      (λ (t : TokenRow). eqb t.id s.token_id) db.tokens v.token_plans h)
  where
    go :
        (o : Option TokenRow)
        → holds (λ (t : TokenRow). has_plan db.plans t.plan_id) o ≡ true
        → holds (is_view s) (elim o [
          | none ↦ none
          | some t ↦ elim (plan_by_id db t.plan_id) [
            | none ↦ none
            | some p ↦ some (record {
              id = s.id;
              token_id = s.token_id;
              mac_address = s.mac_address;
              ip_address = s.ip_address;
              started_at = s.started_at;
              expires_at = s.expires_at;
              status = s.status;
              token_code = some t.code;
              token_name = t.name;
              plan_name = some p.name;
            })
          ]
        ])
          ≡ true
    go none e = ground arith
    go (some t) e = ground (arith, plan_seen db t.plan_id e)

more_awaits :
    (grace : ℤ) (now : ℕ) (x : Session) (sessions : List Session) (rows : List SessionRow)
    → all (awaits grace now sessions) rows ≡ true
    → all (awaits grace now (x ∷ sessions)) rows ≡ true
more_awaits grace now x sessions [] h = refl
more_awaits grace now x sessions (s ∷ rows) h =
    ground (arith, more_awaits grace now x sessions rows)

listed_awaits :
    (grace : ℤ) (now : ℕ) (db : Database)
    → IsSound db
    → all (awaits grace now (get_active_sessions db)) db.sessions ≡ true
unfolding get_active_sessions
listed_awaits grace now db v = go db.sessions v.session_tokens
  where
    go :
        (rows : List SessionRow)
        → All (λ s. has_token db.tokens s.token_id ≡ true) rows
        → all (awaits grace now (join_rows (session_view db) (retain is_active rows))) rows ≡ true
    go [] h = refl
    go (s ∷ rows) h = step (session_view db s) refl (holds-session_view db s v h.0) (go rows h.1)
      where
        step :
            (o : Option Session)
            → session_view db s ≡ o
            → holds (is_view s) o ≡ true
            → all (awaits grace now (join_rows (session_view db) (retain is_active rows))) rows
              ≡ true
            → all
                (awaits grace now (join_rows (session_view db) (retain is_active (s ∷ rows))))
                (s ∷ rows)
              ≡ true
        step none q e rest = ground arith
        step (some x) q e rest = ground (
          arith,
          q,
          rest,
          more_awaits grace now x (join_rows (session_view db) (retain is_active rows)) rows,
        )

module _ (fw : Firewall)
    (accepts : (mac ip : Str) (s : fw.State) → (fw.deauthorize_client mac ip s).0 ≡ ok tt) where
  expired_db :
      (x : Session) (w : World fw)
      → w.io ≡ []
      → ((expire_due fw x w).1.db.sessions ≡ (expire_session w.db x.id).sessions)
        × ((expire_due fw x w).1.io ≡ [])
  unfolding expire_due execute call expire_token
  expired_db x w io = ground (arith, accepts x.mac_address x.ip_address w.firewall)

  abbrev next : ℤ → ℕ → Session → World fw → World fw
  next grace now x w = if is_due grace now x then (expire_due fw x w).1 else w

  next-rows :
      (grace : ℤ) (now : ℕ) (x : Session) (w : World fw)
      → w.io ≡ []
      → ((next grace now x w).db.sessions ≡ (
          if is_due grace now x
          then update_where
              (λ s. eqb s.id x.id)
              (set_session_status SessionStatus.expired)
              w.db.sessions
          else w.db.sessions))
        × ((next grace now x w).io ≡ [])
  unfolding expire_session
  next-rows grace now x w io = ground (arith, expired_db x w io)

  expire_all-awaits :
      (grace : ℤ) (now : ℕ) (sessions : List Session) (w : World fw)
      → w.io ≡ []
      → all (awaits grace now sessions) w.db.sessions ≡ true
      → all (awaits grace now []) (expire_all fw grace now sessions w).db.sessions ≡ true
  unfolding expire_all expire_session
  expire_all-awaits grace now [] w io h = h
  expire_all-awaits grace now (x ∷ sessions) w io h =
      let (rows, io') = next-rows grace now x w io in
      expire_all-awaits grace now sessions (next grace now x w) io'
        (rw rows (expire_awaits grace now x sessions w.db.sessions h))

  -- When no statement and no call fails, a round of the ticker leaves no active session that is due
  -- by the ticker's own test.
  pub tick_expires :
      (grace : ℤ) (now : ℕ) (w : World fw)
      → w.io ≡ []
      → IsSound w.db
      → all
          (λ s. not (is_active s && row_due grace now s))
          (tick_sessions fw grace now w).db.sessions
        ≡ true
  unfolding tick_sessions execute
  tick_expires grace now w io v = ground (
    arith,
    expire_all-awaits grace now (get_active_sessions w.db) w io (listed_awaits grace now w.db v),
  )
