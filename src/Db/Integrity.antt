-- ===== src/Db/Integrity.antt =====
-- src/db/mod.rs and migrations/001_initial_schema.sql: keys and references.
pub mod Purge
pub mod Reachable
use didicafe.Base.{
  ℕ, ◌+◌, ◌<◌, ◌≡◌, refl, ap, ◌∙◌, Bool, true, ◌&&◌, List, [], ◌∷◌, ◌++◌, ◌==◌, Str, str_eq, eqb,
  any, All, arith, Bool-cases, inl, inr, Option, none,
}
use didicafe.Db.Models.{SessionStatus, TokenStatus, Plan, seconds}
use didicafe.Db.Tables.{Database, SessionRow, TokenRow, update_where, empty}
use didicafe.Db.Tokens.{create_token}
use didicafe.Db.Sessions.{is_active, set_session_status, create_session}
use didicafe.Db.Rows.{All-map, All-update, All-append, any-update, any-append}
use didicafe.Db.Statements.{after_insert}

abbrev pub has_token : List TokenRow → ℕ → Bool
has_token tokens id = any (λ (t : TokenRow). eqb t.id id) tokens

abbrev pub has_plan : List Plan → ℕ → Bool
has_plan plans id = any (λ (p : Plan). eqb p.id id) plans

-- `FOREIGN KEY`: every session names a token and every token a plan. Ids stay below the counters.
pub record IsSound (db : Database) : Type 0 where
  pub session_tokens : All (λ s. has_token db.tokens s.token_id ≡ true) db.sessions
  pub token_plans : All (λ t. has_plan db.plans t.plan_id ≡ true) db.tokens
  pub sessions_below : All (λ s. s.id < db.next_session) db.sessions
  pub tokens_below : All (λ t. t.id < db.next_token) db.tokens

pub empty-IsSound : IsSound empty
empty-IsSound = record {
  session_tokens = tt;
  token_plans = tt;
  sessions_below = tt;
  tokens_below = tt;
}

-- A table of tokens that has at least the old ids.
wider :
    (sessions : List SessionRow) (old tokens : List TokenRow)
    → ((id : ℕ) → has_token old id ≡ true → has_token tokens id ≡ true)
    → All (λ s. has_token old s.token_id ≡ true) sessions
    → All (λ s. has_token tokens s.token_id ≡ true) sessions
wider sessions old tokens h = All-map sessions (λ s. h s.token_id)

-- An update of tokens that keeps their ids and plans.
pub update_tokens-IsSound :
    (db : Database) (p : TokenRow → Bool) (f : TokenRow → TokenRow)
    → ((t : TokenRow) → (f t).id ≡ t.id)
    → ((t : TokenRow) → (f t).plan_id ≡ t.plan_id)
    → IsSound db
    → IsSound (record db { tokens = update_where p f db.tokens })
update_tokens-IsSound db p f same_id same_plan v = record {
  session_tokens =
      wider db.sessions db.tokens (update_where p f db.tokens)
        (λ id h.
          any-update (λ (t : TokenRow). eqb t.id id) p f db.tokens
            (λ t. ap (λ i. eqb i id) (same_id t))
          ∙ h)
        v.session_tokens;
  token_plans =
      All-update (λ t. has_plan db.plans t.plan_id ≡ true) p f db.tokens
        (λ t h. ap (has_plan db.plans) (same_plan t) ∙ h) v.token_plans;
  sessions_below = v.sessions_below;
  tokens_below =
      All-update (λ t. t.id < db.next_token) p f db.tokens (λ t h. rw (same_id t) h) v.tokens_below;
}

-- An update of sessions that changes their status alone.
pub restatus-IsSound :
    (db : Database) (p : SessionRow → Bool) (status : SessionStatus)
    → IsSound db
    → IsSound (record db { sessions = update_where p (set_session_status status) db.sessions })
restatus-IsSound db p status v = record {
  session_tokens =
      All-update (λ s. has_token db.tokens s.token_id ≡ true) p (set_session_status status)
        db.sessions (λ s h. h) v.session_tokens;
  token_plans = v.token_plans;
  sessions_below =
      All-update (λ s. s.id < db.next_session) p (set_session_status status) db.sessions (λ s h. h)
        v.sessions_below;
  tokens_below = v.tokens_below;
}

-- One more token, of a plan that exists.
add_token-IsSound :
    (db : Database) (t : TokenRow)
    → t.id ≡ db.next_token
    → has_plan db.plans t.plan_id ≡ true
    → IsSound db
    → IsSound (record db { tokens = db.tokens ++ t ∷ []; next_token = db.next_token + 1 })
add_token-IsSound db t at_next planned v = record {
  session_tokens =
      wider db.sessions db.tokens (db.tokens ++ t ∷ [])
        (λ id h. any-append (λ (u : TokenRow). eqb u.id id) db.tokens (t ∷ []) ∙ ground arith)
        v.session_tokens;
  token_plans =
      All-append (λ u. has_plan db.plans u.plan_id ≡ true) db.tokens (t ∷ []) v.token_plans
        (planned, tt);
  sessions_below = v.sessions_below;
  tokens_below =
      All-append (λ u. u.id < db.next_token + 1) db.tokens (t ∷ [])
        (All-map db.tokens (λ u h. omega arith) v.tokens_below) (omega arith, tt);
}

-- One more session, of a token that exists.
add_session-IsSound :
    (db : Database) (s : SessionRow)
    → s.id ≡ db.next_session
    → has_token db.tokens s.token_id ≡ true
    → IsSound db
    → IsSound (record db { sessions = db.sessions ++ s ∷ []; next_session = db.next_session + 1 })
add_session-IsSound db s at_next known v = record {
  session_tokens =
      All-append (λ u. has_token db.tokens u.token_id ≡ true) db.sessions (s ∷ []) v.session_tokens
        (known, tt);
  token_plans = v.token_plans;
  sessions_below =
      All-append (λ u. u.id < db.next_session + 1) db.sessions (s ∷ [])
        (All-map db.sessions (λ u h. omega arith) v.sessions_below) (omega arith, tt);
  tokens_below = v.tokens_below;
}

pub create_token-IsSound :
    (db : Database) (code : Str) (name : Option Str) (plan_id now : ℕ)
    → IsSound db
    → IsSound (after_insert db (create_token db code name plan_id now))
unfolding create_token
create_token-IsSound db code name plan_id now v =
    elim (Bool-cases (any (λ (t : TokenRow). t.code == code) db.tokens)) [
      | inl taken ↦ rw taken v
      | inr fresh ↦ elim (Bool-cases (has_plan db.plans plan_id)) [
        | inl planned ↦
            rw (fresh, planned)
              (add_token-IsSound db
                (record {
                  id = db.next_token;
                  code = code;
                  name = name;
                  plan_id = plan_id;
                  status = TokenStatus.unused;
                  created_at = seconds now;
                  redeemed_at = none;
                  expires_at = none;
                })
                refl planned v)
        | inr unplanned ↦ rw (fresh, unplanned) v
      ]
    ]

pub create_session-IsSound :
    (db : Database) (token_id : ℕ) (mac ip : Str) (expires_at now : ℕ)
    → IsSound db
    → IsSound (after_insert db (create_session db token_id mac ip expires_at now))
unfolding create_session
create_session-IsSound db token_id mac ip expires_at now v =
    elim (Bool-cases (has_token db.tokens token_id)) [
      | inl known ↦
          let closed = record db {
            sessions =
                update_where (λ s. (s.mac_address == mac) && is_active s)
                  (set_session_status SessionStatus.disconnected) db.sessions;
          } in
          rw known (
            add_session-IsSound closed
              (record {
                id = db.next_session;
                token_id = token_id;
                mac_address = mac;
                ip_address = ip;
                started_at = seconds now;
                expires_at = expires_at;
                status = SessionStatus.active;
              })
              refl known
              (restatus-IsSound db (λ s. (s.mac_address == mac) && is_active s)
                SessionStatus.disconnected v))
      | inr unknown ↦ rw unknown v
    ]

-- Plans are only added or changed in place.
pub plans-IsSound :
    (db : Database) (plans : List Plan) (next : ℕ)
    → ((id : ℕ) → has_plan db.plans id ≡ true → has_plan plans id ≡ true)
    → IsSound db
    → IsSound (record db { plans = plans; next_plan = next })
plans-IsSound db plans next h v = record {
  session_tokens = v.session_tokens;
  token_plans = All-map db.tokens (λ t. h t.plan_id) v.token_plans;
  sessions_below = v.sessions_below;
  tokens_below = v.tokens_below;
}
