-- ===== src/Db/Tables.antt =====
-- migrations/*.sql, as src/db/mod.rs uses them: the rows in the order of their ids, and for each
-- `AUTOINCREMENT` table the id that the next row gets.
use didicafe.Base.{
  ℕ, ◌+◌, Bool, ltb, Option, none, some, List, [], ◌∷◌, eqb, if◌then◌else◌, Str, str_eq, nat_eq,
  find,
}
use didicafe.Db.Models.{TokenStatus, SessionStatus, Plan, Token, Session, AuditLogEntry}

pub record TokenRow : Type 0 where
  pub id : ℕ
  pub code : Str
  pub name : Option Str
  pub plan_id : ℕ
  pub status : TokenStatus
  pub created_at : ℕ
  pub redeemed_at : Option ℕ
  pub expires_at : Option ℕ

pub record SessionRow : Type 0 where
  pub id : ℕ
  pub token_id : ℕ
  pub mac_address : Str
  pub ip_address : Str
  pub started_at : ℕ
  pub expires_at : ℕ
  pub status : SessionStatus

-- `ties` is how SQLite orders two tokens that were created in the same second, in the query with this
-- offset: the source asks for no order there, and SQLite may choose another one in every query.
pub record Database : Type 0 where
  pub plans : List Plan
  pub tokens : List TokenRow
  pub sessions : List SessionRow
  pub audit : List AuditLogEntry
  pub settings : List (Str × Str)
  pub next_plan : ℕ
  pub next_token : ℕ
  pub next_session : ℕ
  pub next_audit : ℕ
  pub ties : ℕ → TokenRow → TokenRow → Bool

abbrev pub empty : Database
empty = record {
  plans = [];
  tokens = [];
  sessions = [];
  audit = [];
  settings = [];
  next_plan = 1;
  next_token = 1;
  next_session = 1;
  ties = λ offset t u. ltb u.id t.id;
  next_audit = 1;
}

-- What a statement that breaks a constraint answers.
pub data DbError : Type 0 where
  unique_constraint foreign_key_constraint : DbError

-- `UPDATE … SET … WHERE …`
abbrev pub update_where {ℓ} : {A : Type ℓ} → (A → Bool) → (A → A) → List A → List A
update_where p f [] = []
update_where p f (x ∷ xs) = (if p x then f x else x) ∷ update_where p f xs

-- `SELECT COUNT(*) … WHERE …`
abbrev pub count_where {ℓ} : {A : Type ℓ} → (A → Bool) → List A → ℕ
count_where p [] = 0
count_where p (x ∷ xs) = (if p x then 1 else 0) + count_where p xs

-- `JOIN`: a row without its partner is left out.
abbrev pub join_rows {ℓ κ} : {A : Type ℓ} {B : Type κ} → (A → Option B) → List A → List B
join_rows f [] = []
join_rows f (x ∷ xs) = elim (f x) [ none ↦ join_rows f xs | some y ↦ y ∷ join_rows f xs ]

abbrev pub plan_by_id : Database → ℕ → Option Plan
plan_by_id db id = find (λ (p : Plan). eqb p.id id) db.plans

abbrev pub token_by_id : Database → ℕ → Option TokenRow
token_by_id db id = find (λ (t : TokenRow). eqb t.id id) db.tokens

abbrev pub session_by_id : Database → ℕ → Option SessionRow
session_by_id db id = find (λ (s : SessionRow). eqb s.id id) db.sessions

-- `FROM token t JOIN plan p ON t.plan_id = p.id`
unfoldable pub token_view : Database → TokenRow → Option Token
token_view db t = elim (plan_by_id db t.plan_id) [
  | none ↦ none
  | some p ↦ some (record {
    id = t.id;
    code = t.code;
    name = t.name;
    plan_id = t.plan_id;
    status = t.status;
    created_at = t.created_at;
    redeemed_at = t.redeemed_at;
    expires_at = t.expires_at;
    duration_minutes = p.duration_minutes;
    plan_name = p.name;
  })
]

-- `FROM session s JOIN token t ON s.token_id = t.id JOIN plan p ON t.plan_id = p.id`
unfoldable pub session_view : Database → SessionRow → Option Session
session_view db s = elim (token_by_id db s.token_id) [
  | none ↦ none
  | some t ↦ elim (plan_by_id db t.plan_id) [
    | none ↦ none
    | some p ↦ some (record {
      id = s.id;
      token_id = s.token_id;
      mac_address = s.mac_address;
      ip_address = s.ip_address;
      started_at = s.started_at;
      expires_at = s.expires_at;
      status = s.status;
      token_code = some t.code;
      token_name = t.name;
      plan_name = some p.name;
    })
  ]
]
