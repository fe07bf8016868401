-- ===== src/Api.antt =====
-- src/web/api.rs: the handlers of the JSON API. The login of each is checked before it runs, in
-- Web/Extract. Reading and writing JSON is a library's, and printing a number a parameter. A moment
-- that a handler reads is `now`, in nanoseconds.
pub mod Plans
pub mod Tokens
pub mod Served
use didicafe.Base.{
  ℕ, Bool, true, not, Option, none, some, List, [], ◌∷◌, ◌++◌, ltb, eqb, if◌then◌else◌, Str, lit,
  str_eq, byte_len, is_empty, any, ◌==◌, Result, ok,
}
use didicafe.Base.Int.{ℤ}
use didicafe.Base.Results as Results
use didicafe.Base.Results.{ensure}
use didicafe.Config.{Config}
use didicafe.Db.Models.{Plan, Token, Session, TokenStatus, token_status_beq, display_token}
use didicafe.Db.Plans as Plan_rows
use didicafe.Db.Tokens as Token_rows
use didicafe.Db.Sessions as Session_rows
use didicafe.Db.Stats as Statistics
use didicafe.Db.Stats.{DailyStats, DayStats}
use didicafe.Db.Audit.{audit_log}
use didicafe.Firewall.{Firewall}
use didicafe.World.{ServiceError, execute, query, update}
use didicafe.SessionService.{disconnect}
use didicafe.TokenService as Service
use didicafe.Web.{AppError, not_found, bad_request, firewall}
use didicafe.Web.Handler.{
  Handler, pure, fail, ◌>>=◌, ◌>>◌, map_err, internally, discard, or_error, require, lift,
}
use didicafe.Web.Input.{validate_plan_input}

pub record CreatePlanRequest : Type 0 where
  pub name : Str
  pub duration_minutes : ℤ
  pub price_ariary : ℤ

pub record UpdatePlanRequest : Type 0 where
  pub name : Str
  pub duration_minutes : ℤ
  pub price_ariary : ℤ
  pub active : Bool

pub record GenerateTokensRequest : Type 0 where
  pub plan_id : ℕ
  pub count : ℕ
  pub name : Str

-- The `data` of an answer, with the status 200, 201 or 204.
pub data Reply : Type 0 where
  created_plan updated_plan : ℕ → Reply
  toggled_plan : ℕ → Bool → Reply
  created_tokens : List Str → Reply
  plans : List Plan → Reply
  tokens : List Token → Reply
  sessions : List Session → Reply
  stats : DailyStats → Reply
  weekly_stats : List DayStats → Reply
  no_content : Reply

abbrev pub status_texts : List Str
status_texts = lit "unused" ∷ lit "active" ∷ lit "expired" ∷ lit "revoked" ∷ []

abbrev pub joined_texts : Str
joined_texts = lit "unused, active, expired, revoked"

-- A filter must be one of the four statuses.
abbrev pub is_filter : Option Str → Bool
is_filter none = true
is_filter (some status) = any (λ text. text == status) status_texts

abbrev pub filter_error : Option Str → AppError
filter_error none = bad_request []
filter_error (some status) =
    bad_request
      (lit "invalid status filter '" ++ (status ++ (lit "', must be one of: " ++ joined_texts)))

-- The limits of a batch, in front of the lookup of its plan.
unfoldable pub check_request : GenerateTokensRequest → Result AppError (Unit {0})
check_request req =
    Results.◌>>◌ (ensure (not (is_empty req.name)) (bad_request (lit "name must not be empty"))) (
      Results.◌>>◌
        (ensure (not (ltb 200 (byte_len req.name)))
          (bad_request (lit "name must be 200 characters or less")))
        (Results.◌>>◌ (ensure (not (eqb req.count 0)) (bad_request (lit "count must be > 0")))
          (ensure (not (ltb 100 req.count)) (bad_request (lit "count must be <= 100")))))

module _ (fw : Firewall) (config : Config) (to_string : ℕ → Str) where
  -- `state.db.audit_log(&state.config.admin.username, …).await.ok()`
  abbrev pub log : Str → Str → Option ℕ → Option Str → ℕ → Handler fw (Unit {0})
  log action target_type target_id detail now = discard (
      update
        (λ db. audit_log db config.admin.username action (some target_type) target_id detail now))

  abbrev pub missing : Str → ℕ → AppError
  missing what id = not_found (what ++ (b' ' ∷ (to_string id ++ lit " not found")))

  unfoldable pub list_plans : Handler fw Reply
  list_plans = do found ← internally (query Plan_rows.list_plans); pure (plans found)

  unfoldable pub create_plan : CreatePlanRequest → ℕ → Handler fw Reply
  create_plan req now = do
    lift (validate_plan_input req.name req.duration_minutes req.price_ariary)
    id ← internally (
        execute
          (λ db. ok (Plan_rows.create_plan db req.name req.duration_minutes req.price_ariary now)))
    log (lit "create_plan") (lit "plan") none (some req.name) now
    pure (created_plan id)

  unfoldable pub update_plan : ℕ → UpdatePlanRequest → ℕ → Handler fw Reply
  update_plan id req now = do
    lift (validate_plan_input req.name req.duration_minutes req.price_ariary)
    updated ← internally (
        execute (λ db.
          ok (
            Plan_rows.update_plan db id req.name req.duration_minutes req.price_ariary req.active)))
    require updated (missing (lit "plan") id)
    log (lit "update_plan") (lit "plan") (some id) none now
    pure (updated_plan id)

  -- Nothing is logged here.
  unfoldable pub toggle_plan_active : ℕ → Bool → Handler fw Reply
  toggle_plan_active id active = do
    found ← internally (query (λ db. Plan_rows.get_plan db id))
    plan ← or_error found (missing (lit "plan") id)
    updated ← internally (
        execute (λ db.
          ok
            (Plan_rows.update_plan db id plan.name plan.duration_minutes plan.price_ariary active)))
    require updated (missing (lit "plan") id)
    pure (toggled_plan id active)

  unfoldable pub list_tokens : Option Str → ℕ → Handler fw Reply
  list_tokens status now = do
    require (is_filter status) (filter_error status)
    found ← internally (query (λ db. Token_rows.list_tokens db status now))
    pure (tokens found)

  -- Nor here.
  unfoldable pub generate_tokens : GenerateTokensRequest → Service.Draws → ℕ → Handler fw Reply
  generate_tokens req draws now = do
    lift (check_request req)
    found ← internally (query (λ db. Plan_rows.get_plan db req.plan_id))
    plan ← or_error found (missing (lit "plan") req.plan_id)
    require plan.active (bad_request (lit "plan '" ++ (plan.name ++ lit "' is not active")))
    codes ←
        internally
          (Service.generate_tokens fw config.token draws req.plan_id req.count (some req.name) now)
    pure (created_tokens codes)

  unfoldable pub revoke_token : ℕ → ℕ → Handler fw Reply
  revoke_token id now = do
    found ← internally (query (λ db. Token_rows.get_token_by_id db id))
    token ← or_error found (missing (lit "token") id)
    require (token_status_beq token.status TokenStatus.unused) (
        bad_request
          (lit "cannot revoke token with status '" ++ (display_token token.status ++ lit "'")))
    internally (update (λ db. Token_rows.revoke_token db id))
    log (lit "revoke_token") (lit "token") (some id) none now
    pure no_content

  unfoldable pub list_sessions : Handler fw Reply
  list_sessions = do
    found ← internally (query Session_rows.get_active_sessions)
    pure (sessions found)

  -- Any failure is reported as one of the firewall; `describe` is the error's text.
  unfoldable pub disconnect_session : (ServiceError → Str) → ℕ → ℕ → Handler fw Reply
  disconnect_session describe id now = do
    map_err (λ e. firewall (describe e)) (disconnect fw id)
    log (lit "disconnect_session") (lit "session") (some id) none now
    pure no_content

  unfoldable pub get_stats : ℕ → Handler fw Reply
  get_stats now = do
    found ← internally (query (λ db. Statistics.get_daily_stats db now))
    pure (stats found)

  unfoldable pub get_weekly_stats : ℕ → Handler fw Reply
  get_weekly_stats now = do
    days ← internally (query (λ db. Statistics.get_weekly_stats db now))
    pure (weekly_stats days)

-- The requests to the API, by their routes.
pub data Call : Type 0 where
  lists_plans lists_sessions gets_stats gets_weekly_stats : Call
  creates_plan : CreatePlanRequest → Call
  updates_plan : ℕ → UpdatePlanRequest → Call
  toggles_plan : ℕ → Bool → Call
  lists_tokens : Option Str → Call
  generates_tokens : GenerateTokensRequest → Service.Draws → Call
  revokes_token disconnects_session : ℕ → Call

module _ (fw : Firewall) (config : Config) (to_string : ℕ → Str)
    (describe : ServiceError → Str) where
  unfoldable pub api : Call → ℕ → Handler fw Reply
  api lists_plans now = list_plans fw config to_string
  api lists_sessions now = list_sessions fw config to_string
  api gets_stats now = get_stats fw config to_string now
  api gets_weekly_stats now = get_weekly_stats fw config to_string now
  api (creates_plan req) now = create_plan fw config to_string req now
  api (updates_plan id req) now = update_plan fw config to_string id req now
  api (toggles_plan id active) now = toggle_plan_active fw config to_string id active
  api (lists_tokens status) now = list_tokens fw config to_string status now
  api (generates_tokens req draws) now = generate_tokens fw config to_string req draws now
  api (revokes_token id) now = revoke_token fw config to_string id now
  api (disconnects_session id) now = disconnect_session fw config to_string describe id now
