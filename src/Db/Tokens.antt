-- ===== src/Db/Tokens.antt =====
-- src/db/mod.rs: the statements about tokens. A clock reading is in nanoseconds.
use didicafe.Base.{
  ℕ, ◌+◌, ◌-◌, ◌*◌, Bool, true, false, not, ◌&&◌, ◌||◌, Option, none, some, List, [], ◌∷◌, ◌++◌,
  ltb, leb, eqb, if◌then◌else◌, ◌==◌, Str, lit, str_eq, retain, any, Result, ok, err, take, drop,
  map,
}
use didicafe.Db.Models.{TokenStatus, Token, Plan, token_status_beq, display_token, seconds}
use didicafe.Db.Tables.{
  Database, DbError, TokenRow, unique_constraint, foreign_key_constraint, update_where, count_where,
  join_rows, token_view,
}

-- `code` is UNIQUE and `plan_id` references a plan.
unfoldable pub create_token : Database → Str → Option Str → ℕ → ℕ → Result DbError (ℕ × Database)
create_token db code name plan_id now =
    if any (λ (t : TokenRow). t.code == code) db.tokens
    then err unique_constraint
    else if not (any (λ (p : Plan). eqb p.id plan_id) db.plans)
    then err foreign_key_constraint
    else ok (
      db.next_token,
      record db {
        tokens =
            db.tokens
            ++ record {
              id = db.next_token;
              code = code;
              name = name;
              plan_id = plan_id;
              status = TokenStatus.unused;
              created_at = seconds now;
              redeemed_at = none;
              expires_at = none;
            }
              ∷ [];
        next_token = db.next_token + 1;
      },
    )

abbrev pub first_token : List Token → Option Token
first_token [] = none
first_token (t ∷ tokens) = some t

-- TOKEN_BY_CODE
unfoldable pub get_token_by_code : Database → Str → Option Token
get_token_by_code db code =
    first_token (join_rows (token_view db) (retain (λ (t : TokenRow). t.code == code) db.tokens))

-- TOKEN_BY_ID
unfoldable pub get_token_by_id : Database → ℕ → Option Token
get_token_by_id db id =
    first_token (join_rows (token_view db) (retain (λ (t : TokenRow). eqb t.id id) db.tokens))

unfoldable pub redeem_token : Database → ℕ → ℕ → ℕ → Database
redeem_token db token_id expires_at now = record db {
  tokens =
      update_where (λ (t : TokenRow). eqb t.id token_id)
        (λ t. record t {
          status = TokenStatus.active;
          redeemed_at = some (seconds now);
          expires_at = some expires_at;
        })
        db.tokens;
}

unfoldable pub expire_token : Database → ℕ → Database
expire_token db token_id = record db {
  tokens =
      update_where (λ (t : TokenRow). eqb t.id token_id)
        (λ t. record t { status = TokenStatus.expired }) db.tokens;
}

unfoldable pub revoke_token : Database → ℕ → Database
revoke_token db token_id = record db {
  tokens =
      update_where
        (λ (t : TokenRow). eqb t.id token_id && token_status_beq t.status TokenStatus.unused)
        (λ t. record t { status = TokenStatus.revoked }) db.tokens;
}

-- `expires_at <= datetime('now')`, and `expires_at > datetime('now')`: neither holds of NULL.
abbrev pub is_past : ℕ → Option ℕ → Bool
is_past now none = false
is_past now (some e) = leb e (seconds now)

abbrev pub is_ahead : ℕ → Option ℕ → Bool
is_ahead now none = false
is_ahead now (some e) = ltb (seconds now) e

abbrev pub has_status : TokenStatus → TokenRow → Bool
has_status status t = token_status_beq t.status status

-- The five filters of `list_tokens_paged`, by the text of the query parameter; `none` is no filter.
pub data Filter : Type 0 where
  current only_active only_expired everything : Filter
  by_status : Str → Filter

unfoldable pub filter_of : Option Str → Filter
filter_of none = everything
filter_of (some status) =
    if status == lit "current"
    then current
    else if status == lit "active"
    then only_active
    else if status == lit "expired"
    then only_expired
    else by_status status

-- The WHERE clauses of the TOKEN_COUNT queries.
unfoldable pub counts : Filter → ℕ → TokenRow → Bool
counts everything now t = true
counts (by_status status) now t = display_token t.status == status
counts only_active now t = has_status TokenStatus.active t && is_ahead now t.expires_at
counts only_expired now t =
    has_status TokenStatus.expired t
    || (has_status TokenStatus.active t && is_past now t.expires_at)
counts current now t =
    has_status TokenStatus.unused t
    || (has_status TokenStatus.active t && is_ahead now t.expires_at)

-- The WHERE clauses of the TOKEN_LIST queries.
unfoldable pub matches : Filter → ℕ → TokenRow → Bool
matches current now t =
    has_status TokenStatus.unused t
    || (has_status TokenStatus.active t && is_ahead now t.expires_at)
matches only_active now t = has_status TokenStatus.active t && is_ahead now t.expires_at
matches only_expired now t =
    has_status TokenStatus.expired t
    || (has_status TokenStatus.active t && is_past now t.expires_at)
matches (by_status status) now t = display_token t.status == status
matches everything now t = true

-- The status that the list shows: TOKEN_LIST and TOKEN_LIST_EXPIRED rewrite it.
unfoldable pub shown_status : Filter → ℕ → TokenRow → TokenStatus
shown_status everything now t =
    if has_status TokenStatus.active t && is_past now t.expires_at
    then TokenStatus.expired
    else t.status
shown_status only_expired now t = TokenStatus.expired
shown_status current now t = t.status
shown_status only_active now t = t.status
shown_status (by_status status) now t = t.status

-- `ORDER BY t.created_at DESC`, where `before` orders the rows of one second.
unfoldable pub insert_newest :
    (TokenRow → TokenRow → Bool) → TokenRow → List TokenRow → List TokenRow
insert_newest before t [] = t ∷ []
insert_newest before t (u ∷ rows) =
    if ltb u.created_at t.created_at || (eqb u.created_at t.created_at && before t u)
    then t ∷ u ∷ rows
    else u ∷ insert_newest before t rows

unfoldable pub newest_first : (TokenRow → TokenRow → Bool) → List TokenRow → List TokenRow
newest_first before [] = []
newest_first before (t ∷ rows) = insert_newest before t (newest_first before rows)

-- The rows of a list query before its offset is taken.
unfoldable pub selected : Database → Filter → ℕ → ℕ → List Token
selected db f offset now = join_rows (token_view db) (
    map {A = TokenRow} (λ t. record t { status = shown_status f now t })
      (newest_first (db.ties offset) (retain (matches f now) db.tokens)))

-- The page and the total. `page` counts from 1; `LIMIT per_page OFFSET (page - 1) * per_page`.
unfoldable pub list_tokens_paged : Database → Option Str → ℕ → ℕ → ℕ → List Token × ℕ
list_tokens_paged db status_filter page per_page now =
    let f = filter_of status_filter in
    let offset = (page - 1) * per_page in
    (take per_page (drop offset (selected db f offset now)), count_where (counts f now) db.tokens)

-- `list_tokens`: the status is a raw one.
unfoldable pub list_tokens : Database → Option Str → ℕ → List Token
list_tokens db none now = selected db everything 0 now
list_tokens db (some status) now = selected db (by_status status) 0 now
