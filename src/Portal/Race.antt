-- ===== src/Portal/Race.antt =====
-- src/web/portal.rs: two requests whose lookups both stand before either session is created.
use didicafe.Base.{
  pair_eq, ℕ, ◌≡◌, ◌≢◌, refl, Bool, true, ◌∙◌, Option, none, some, List, [], ◌∷◌, eqb, retain, Str,
  Result, ok, arith, str_eq, ◌==◌,
}
use didicafe.Base.Int.{ℤ}
use didicafe.Db.Models.{Token}
use didicafe.Db.Tables.{Database, TokenRow, token_view, join_rows}
use didicafe.Db.Rows.{any-update}
use didicafe.Db.Tokens.{get_token_by_code, redeem_token, first_token}
use didicafe.Db.Sessions as Rows
use didicafe.Db.Active.{active_count}
use didicafe.Db.Integrity.{has_token}
use didicafe.Firewall.{Firewall}
use didicafe.World.{World, ServiceError, execute, call}
use didicafe.SessionService.{Clock, create_session, expiry, timeout_of}
use didicafe.SessionService.Create.{created, created_other}
use didicafe.Portal.{classify, validate_token, unused_token}

-- A token that a query sees has its row.
seen_has :
    (db : Database) (p : TokenRow → Bool) (rows : List TokenRow) (t : Token)
    → first_token (join_rows (token_view db) (retain p rows)) ≡ some t
    → has_token rows t.id ≡ true
unfolding token_view
seen_has db p [] t h = ground arith
seen_has db p (row ∷ rows) t h = ground (arith, seen_has db p rows t)

classified : (o : Option Token) (t : Token) → classify o ≡ unused_token t → o ≡ some t
classified none t h = ground arith
classified (some s) t h = ground arith

unused_has :
    (db : Database) (code : Str) (t : Token)
    → validate_token db code ≡ unused_token t
    → has_token db.tokens t.id ≡ true
unfolding validate_token get_token_by_code
unused_has db code t h =
    seen_has db (λ row. row.code == code) db.tokens t (classified (get_token_by_code db code) t h)

redeem-has :
    (db : Database) (token_id until now id : ℕ)
    → has_token db.tokens id ≡ true
    → has_token (redeem_token db token_id until now).tokens id ≡ true
unfolding redeem_token
redeem-has db token_id until now id h =
    any-update (λ (t : TokenRow). eqb t.id id) (λ (t : TokenRow). eqb t.id token_id) _ db.tokens
      (λ t. refl)
    ∙ h

module _ (fw : Firewall)
    (accepts : (mac ip : Str) (secs : ℕ) (s : fw.State)
      → (fw.authorize_client mac ip secs s).0 ≡ ok tt) where
  succeeds :
      (token_id : ℕ) (duration : ℤ) (mac ip : Str) (clock : Clock) (w : World fw)
      → w.io ≡ []
      → has_token w.db.tokens token_id ≡ true
      → ((create_session fw token_id duration mac ip clock w).0 ≡ ok w.db.next_session)
        × ((create_session fw token_id duration mac ip clock w).1.io ≡ [])
        × ((create_session fw token_id duration mac ip clock w).1.db.tokens
            ≡ (redeem_token w.db token_id (expiry clock.started duration) clock.redeemed).tokens)
  unfolding create_session execute call Rows.create_session redeem_token
  succeeds token_id duration mac ip clock w io known =
      ground (arith, accepts mac ip (timeout_of duration) w.firewall)

  module _ (code mac1 mac2 ip1 ip2 : Str) (clock1 clock2 : Clock) (t : Token) (w : World fw) where
    abbrev first : Result ServiceError ℕ × World fw
    first = create_session fw t.id t.duration_minutes mac1 ip1 clock1 w

    abbrev second : Result ServiceError ℕ × World fw
    second = create_session fw t.id t.duration_minutes mac2 ip2 clock2 first.1

    -- When two requests with one unused code are both past their lookup before either creates its
    -- session, and nothing fails, both creations succeed: two devices have an active session each,
    -- under one token.
    pub raced :
        validate_token w.db code ≡ unused_token t
        → mac2 ≢ mac1
        → w.io ≡ []
        → (first.0 ≡ ok w.db.next_session)
          × (second.0 ≡ ok first.1.db.next_session)
          × (active_count mac1 second.1.db ≡ 1)
          × (active_count mac2 second.1.db ≡ 1)
    raced lookup apart io =
        let known = unused_has w.db code t lookup in
        let (done1, io1, tokens1) = succeeds t.id t.duration_minutes mac1 ip1 clock1 w io known in
        let known1 : has_token first.1.db.tokens t.id ≡ true = rw tokens1 (
          redeem-has w.db t.id (expiry clock1.started t.duration_minutes) clock1.redeemed t.id
            known) in
        let (done2, io2, tokens2) =
          succeeds t.id t.duration_minutes mac2 ip2 clock2 first.1 io1 known1 in
        (
          done1,
          done2,
          created_other fw t.id t.duration_minutes mac2 ip2 clock2 first.1 second.1
                first.1.db.next_session mac1 apart (pair_eq second done2)
              ∙ (created fw t.id t.duration_minutes mac1 ip1 clock1 w first.1 w.db.next_session
                  (pair_eq first done1)).0,
          (created fw t.id t.duration_minutes mac2 ip2 clock2 first.1 second.1
              first.1.db.next_session (pair_eq second done2)).0,
        )
