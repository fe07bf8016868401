-- ===== src/Manage.antt =====
-- src/web/admin.rs: the submission of the management page: a new plan, or a batch of codes. Printing a
-- number is a parameter; a moment is `now`, in nanoseconds.
pub mod Batch
use didicafe.Base.{
  ℕ, not, Option, none, some, List, [], ◌∷◌, ◌++◌, ltb, if◌then◌else◌, ◌==◌, Str, lit, str_eq,
  length, byte_len, is_empty, Result, ok,
}
use didicafe.Base.Int.{ℤ}
use didicafe.Base.Results as Results
use didicafe.Base.Results.{ensure}
use didicafe.Config.{Config}
use didicafe.Db.Models.{Plan, Token, Session}
use didicafe.Db.Plans as Plan_rows
use didicafe.Db.Tokens as Token_rows
use didicafe.Db.Sessions as Session_rows
use didicafe.Db.Audit.{audit_log}
use didicafe.Firewall.{Firewall}
use didicafe.TokenService as Service
use didicafe.World.{execute, query, update}
use didicafe.Web.{AppError, bad_request, not_found}
use didicafe.Web.Handler.{
  Handler, pure, fail, ◌>>=◌, ◌>>◌, internally, discard, lift, or_error, require,
}
use didicafe.Web.Input.{validate_plan_input}
use didicafe.Web.Message.{I18nMessage}

abbrev pub tokens_per_page : ℕ
tokens_per_page = 50

pub record ManageForm : Type 0 where
  pub plan_id : Option ℕ
  pub count : Option ℕ
  pub name : Option Str
  pub duration : Option ℤ
  pub price : Option ℤ
  pub plan_name : Option Str
  pub csrf_token : Str

pub record TokenPage : Type 0 where
  pub tokens : List Token
  pub total : ℕ
  pub page : ℕ
  pub per_page : ℕ
  pub status_filter : Str

-- What the page shows that depends on the database, and the message.
pub record ManagePage : Type 0 where
  pub token_page : TokenPage
  pub plans : List Plan
  pub sessions : List Session
  pub message : Option I18nMessage

-- `"all" => None, other => Some(other)`
abbrev pub db_filter : Str → Option Str
db_filter status_filter = if status_filter == lit "all" then none else some status_filter

-- `.unwrap_or(0)`, and `.unwrap_or_default()`
abbrev pub or_zero : Option ℕ → ℕ
or_zero none = 0
or_zero (some n) = n

abbrev pub or_empty : Option Str → Str
or_empty none = []
or_empty (some s) = s

-- The limits of a batch on the page.
unfoldable pub check_batch : Str → ℕ → Result AppError (Unit {0})
check_batch token_name count =
    Results.◌>>◌ (ensure (not (is_empty token_name)) (bad_request (lit "admin.error.name_empty"))) (
      Results.◌>>◌
        (ensure (not (ltb 200 (byte_len token_name)))
          (bad_request (lit "admin.error.name_too_long_200")))
        (ensure (not (ltb 100 count)) (bad_request (lit "admin.error.count_max"))))

module _ (fw : Firewall) (config : Config) (to_string : ℕ → Str) where
  abbrev pub log : Str → Str → Option ℕ → Str → ℕ → Handler fw (Unit {0})
  log action target_type target_id detail now = discard (
      update (λ db.
        audit_log db config.admin.username action (some target_type) target_id (some detail) now))

  unfoldable pub load_manage_data : Str → ℕ → Option I18nMessage → ℕ → Handler fw ManagePage
  load_manage_data status_filter page message now = do
    listed ← internally (
        query (λ db.
          Token_rows.list_tokens_paged db (db_filter status_filter) page tokens_per_page now))
    plans ← internally (query Plan_rows.list_plans)
    sessions ← internally (query (λ db. Session_rows.get_live_sessions db now))
    pure (record {
      token_page = record {
        tokens = listed.0;
        total = listed.1;
        page = page;
        per_page = tokens_per_page;
        status_filter = status_filter;
      };
      plans = plans;
      sessions = sessions;
      message = message;
    })

  unfoldable pub add_plan : Str → ManageForm → ℕ → Handler fw (Option I18nMessage)
  add_plan plan_name form now = do
    duration ← or_error form.duration (bad_request (lit "admin.error.duration_required"))
    price ← or_error form.price (bad_request (lit "admin.error.price_required"))
    lift (validate_plan_input plan_name duration price)
    internally
        (execute (λ db. ok (tt {0}, (Plan_rows.create_plan db plan_name duration price now).1)))
    log (lit "create_plan") (lit "plan") none plan_name now
    pure (
        some
          (record { key = lit "admin.manage.plan_created"; args = (lit "name", plan_name) ∷ [] }))

  unfoldable pub add_codes : ℕ → Str → ℕ → Service.Draws → ℕ → Handler fw (Option I18nMessage)
  add_codes plan_id token_name count draws now = do
    lift (check_batch token_name count)
    found ← internally (query (λ db. Plan_rows.get_plan db plan_id))
    plan ← or_error found (not_found (lit "plan " ++ (to_string plan_id ++ lit " not found")))
    require plan.active (bad_request (lit "admin.error.plan_inactive"))
    codes ←
        internally
          (Service.generate_tokens fw config.token draws plan_id count (some token_name) now)
    log (lit "generate_tokens") (lit "token") (some plan_id)
        (to_string (length codes) ++ (lit " tokens for plan " ++ to_string plan_id)) now
    pure (
        some (record {
          key = lit "admin.manage.tokens_generated";
          args = (lit "count", to_string (length codes)) ∷ [];
        }))

  -- The arms on `plan_name`, else on `plan_id`.
  abbrev pub for_plan : ManageForm → Option ℕ → Service.Draws → ℕ → Handler fw (Option I18nMessage)
  for_plan form none draws now = pure none
  for_plan form (some plan_id) draws now =
      if ltb 0 (or_zero form.count)
      then add_codes plan_id (or_empty form.name) (or_zero form.count) draws now
      else pure none

  abbrev pub act : ManageForm → Option Str → Service.Draws → ℕ → Handler fw (Option I18nMessage)
  act form none draws now = for_plan form form.plan_id draws now
  act form (some plan_name) draws now =
      if is_empty plan_name then pure none else add_plan plan_name form now

  -- `csrf` is the token of the session.
  unfoldable pub manage_submit : Str → ManageForm → Service.Draws → ℕ → Handler fw ManagePage
  manage_submit csrf form draws now = do
    lift (ensure (form.csrf_token == csrf) (bad_request (lit "admin.error.csrf")))
    message ← act form form.plan_name draws now
    load_manage_data (lit "current") 1 message now
