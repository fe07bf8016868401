-- ===== src/Db/Integrity/Purge.antt =====
-- src/db/mod.rs: the references under the purge.
use didicafe.Base.{
  ℕ, ◌<◌, ◌≡◌, ap, ◌∙◌, true, not, List, [], ◌∷◌, str_eq, eqb, retain, any, All, arith,
}
use didicafe.Db.Tables.{Database, SessionRow, TokenRow}
use didicafe.Db.Sessions.{purge_expired_sessions, is_purgeable, is_orphan}
use didicafe.Db.Rows.{All-map, All-retain, any-retain}
use didicafe.Db.Integrity.{IsSound, has_token, has_plan}

-- A token that a session names is no orphan.
named_not_orphan :
    (sessions : List SessionRow) (id : ℕ) (t : TokenRow)
    → any (λ (s : SessionRow). eqb s.token_id id) sessions ≡ true
    → eqb t.id id ≡ true
    → not (is_orphan sessions t) ≡ true
named_not_orphan sessions id t named same =
    let e : t.id ≡ id = ground arith in
    ground (arith, ap (λ i. any (λ (s : SessionRow). eqb s.token_id i) sessions) e)

names_itself :
    (sessions : List SessionRow)
    → All (λ s. any (λ (u : SessionRow). eqb u.token_id s.token_id) sessions ≡ true) sessions
names_itself [] = tt
names_itself (s ∷ sessions) =
    (ground arith, All-map sessions (λ u h. ground arith) (names_itself sessions))

-- The tokens that are kept beside the sessions that are kept.
kept_tokens :
    (all sessions : List SessionRow) (tokens : List TokenRow)
    → All (λ s. any (λ (u : SessionRow). eqb u.token_id s.token_id) all ≡ true) sessions
    → All (λ s. has_token tokens s.token_id ≡ true) sessions
    → All (λ s. has_token (retain (λ t. not (is_orphan all t)) tokens) s.token_id ≡ true) sessions
kept_tokens all [] tokens named known = tt
kept_tokens all (s ∷ sessions) tokens named known = (
  any-retain (λ (t : TokenRow). eqb t.id s.token_id) (λ t. not (is_orphan all t)) tokens
        (λ t. named_not_orphan all s.token_id t named.0)
      ∙ known.0,
  kept_tokens all sessions tokens named.1 known.1,
)

pub purge-IsSound :
    (db : Database) (days now : ℕ) → IsSound db → IsSound (purge_expired_sessions db days now).1
unfolding purge_expired_sessions
purge-IsSound db days now v =
    let keep = λ (s : SessionRow). not (is_purgeable days now s) in
    let kept = retain keep db.sessions in
    let wanted = λ (t : TokenRow). not (is_orphan kept t) in
    record {
      session_tokens = kept_tokens kept kept db.tokens (names_itself kept) (
          All-retain (λ s. has_token db.tokens s.token_id ≡ true) keep db.sessions
            v.session_tokens);
      token_plans =
          All-retain (λ t. has_plan db.plans t.plan_id ≡ true) wanted db.tokens v.token_plans;
      sessions_below = All-retain (λ s. s.id < db.next_session) keep db.sessions v.sessions_below;
      tokens_below = All-retain (λ t. t.id < db.next_token) wanted db.tokens v.tokens_below;
    }
