-- ===== src/SessionService/Found.antt =====
-- src/services/session.rs, src/db/mod.rs: the lookup by the MAC finds the session that was created.
use didicafe.Base.{
  ℕ, ◌<◌, ◌≡◌, refl, ap, ◌∙◌, true, ◌&&◌, Option, some, List, [], ◌∷◌, ◌++◌, eqb, ◌==◌, Str, str_eq,
  ok, arith, retain, find, retain-append, beq_refl, lt→ltb,
}
use didicafe.Base.Int.{ℤ}
use didicafe.Db.Models.{Plan, Session, SessionStatus, TokenStatus, seconds}
use didicafe.Db.Tables.{
  Database, TokenRow, SessionRow, update_where, join_rows, token_by_id, plan_by_id, session_view,
}
use didicafe.Db.Tokens.{redeem_token}
use didicafe.Db.Sessions as Rows
use didicafe.Db.Sessions.{is_live, last_of, get_session_by_mac}
use didicafe.Db.Active.{new_row, rows-create_session}
use didicafe.Db.Statements.{after_insert}
use didicafe.Firewall.{Firewall}
use didicafe.World.{World}
use didicafe.SessionService.{Clock, create_session, expiry}
use didicafe.SessionService.Create.{statements, inserted}

module _ {ℓ} {A : Type ℓ} where
  last_of-append : (xs : List A) (y : A) → last_of (xs ++ y ∷ []) ≡ some y
  last_of-append [] y = refl
  last_of-append (x ∷ []) y = refl
  last_of-append (x ∷ x' ∷ xs) y = last_of-append (x' ∷ xs) y

  join-last :
      {B : Type 0} (f : A → Option B) (xs : List A) (y : A) (z : B)
      → f y ≡ some z
      → join_rows f (xs ++ y ∷ []) ≡ join_rows f xs ++ z ∷ []
  join-last f [] y z e = rw e
  join-last f (x ∷ xs) y z e = ground (arith, join-last f xs y z e)

find-update :
    (id : ℕ) (g : TokenRow → TokenRow) (rows : List TokenRow) (t : TokenRow)
    → ((u : TokenRow) → (g u).id ≡ u.id)
    → find (λ (u : TokenRow). eqb u.id id) rows ≡ some t
    → find (λ (u : TokenRow). eqb u.id id) (update_where (λ u. eqb u.id id) g rows) ≡ some (g t)
find-update id g [] t same e = cc
find-update id g (u ∷ rows) t same e = ground (arith, same u, find-update id g rows t same)

session_view-some :
    (db : Database) (s : SessionRow) (t : TokenRow) (p : Plan)
    → token_by_id db s.token_id ≡ some t
    → plan_by_id db t.plan_id ≡ some p
    → session_view db s
      ≡ some (record {
        id = s.id;
        token_id = s.token_id;
        mac_address = s.mac_address;
        ip_address = s.ip_address;
        started_at = s.started_at;
        expires_at = s.expires_at;
        status = s.status;
        token_code = some t.code;
        token_name = t.name;
        plan_name = some p.name;
      })
unfolding session_view
session_view-some db s t p token plan = rw (token, session_view) (rw plan refl)

-- The session that a creation leaves, as the queries show it.
abbrev pub created_session : TokenRow → Plan → ℕ → ℕ → Str → Str → ℕ → ℕ → Session
created_session t p id token_id mac ip expires_at now = record {
  id = id;
  token_id = token_id;
  mac_address = mac;
  ip_address = ip;
  started_at = seconds now;
  expires_at = expires_at;
  status = SessionStatus.active;
  token_code = some t.code;
  token_name = t.name;
  plan_name = some p.name;
}

-- The lookup takes the last of the live sessions, so a row that stands last is found.
last-live :
    (db : Database) (rows : List SessionRow) (row : SessionRow) (mac : Str) (now : ℕ) (s : Session)
    → db.sessions ≡ rows ++ row ∷ []
    → ((row.mac_address == mac) && is_live now row) ≡ true
    → session_view db row ≡ some s
    → get_session_by_mac db mac now ≡ some s
unfolding get_session_by_mac
last-live db rows row mac now s e live view =
    let test = λ (r : SessionRow). (r.mac_address == mac) && is_live now r in
    let kept : retain test (rows ++ row ∷ []) ≡ retain test rows ++ row ∷ [] =
      retain-append test rows (row ∷ []) ∙ ap (λ r. retain test rows ++ r) (rw live refl) in
    ap (λ r. last_of (join_rows (session_view db) (retain test r))) e
    ∙ ap (λ r. last_of (join_rows (session_view db) r)) kept
    ∙ ap last_of (join-last (session_view db) (retain test rows) row s view)
    ∙ last_of-append (join_rows (session_view db) (retain test rows)) s

module _ (fw : Firewall) (token_id : ℕ) (duration : ℤ) (mac ip : Str) (clock : Clock)
    (w w' : World fw) (id : ℕ) (t : TokenRow) (p : Plan)
    (created : create_session fw token_id duration mac ip clock w ≡ (ok id, w'))
    (token : token_by_id w.db token_id ≡ some t) (plan : plan_by_id w.db t.plan_id ≡ some p) where
  abbrev made : Database
  made = after_insert w.db (inserted fw token_id duration mac ip clock w w')

  tables_kept : (made.tokens ≡ w.db.tokens) × (made.plans ≡ w.db.plans)
  unfolding Rows.create_session
  tables_kept = ground arith

  abbrev after : Database
  after = redeem_token made token_id (expiry clock.started duration) clock.redeemed

  abbrev row : SessionRow
  row = new_row w.db made token_id id mac ip (expiry clock.started duration) clock.inserted

  abbrev redeemed : TokenRow → TokenRow
  redeemed u = record u {
    status = TokenStatus.active;
    redeemed_at = some (seconds clock.redeemed);
    expires_at = some (expiry clock.started duration);
  }

  view :
      session_view after row
      ≡ some (created_session t p id token_id mac ip (expiry clock.started duration) clock.inserted)
  unfolding redeem_token
  view =
      let kept_tokens = tables_kept.0 in
      let found : token_by_id after token_id ≡ some (redeemed t) =
        find-update token_id redeemed made.tokens t (λ u. refl)
          (ap (find (λ (u : TokenRow). eqb u.id token_id)) kept_tokens ∙ token) in
      let planned : plan_by_id after t.plan_id ≡ some p =
        ap (find (λ (q : Plan). eqb q.id t.plan_id)) tables_kept.1 ∙ plan in
      session_view-some after row (redeemed t) p found planned

  -- Until it expires, the lookup by the MAC finds the session that was created last.
  pub create-get_session_by_mac :
      (later : ℕ)
      → seconds later < expiry clock.started duration
      → get_session_by_mac w'.db mac later
        ≡ some
            (created_session t p id token_id mac ip (expiry clock.started duration) clock.inserted)
  unfolding redeem_token
  create-get_session_by_mac later ahead =
      let made_of = statements fw token_id duration mac ip clock w w' id created in
      ap (λ db. get_session_by_mac db mac later) made_of.1
      ∙ last-live after _ row mac later _
          (rows-create_session w.db made token_id id mac ip (expiry clock.started duration)
            clock.inserted made_of.0)
          (rw (beq_refl mac, lt→ltb _ _ ahead) refl) view
