-- ===== src/Tests/Api.antt =====
-- Runs of src/web/api.rs and src/services/token.rs.
use didicafe.Base.{
  ℕ, ◌%◌, ◌≤◌, ◌<◌, ◌≡◌, ◌≢◌, refl, ap, true, false, none, some, List, [], ◌∷◌, ◌++◌, Str, lit,
  list_beq, ok, IsAscii, strip_prefix, arith, byte_len, length, pick_all,
}
use didicafe.Base.Int.{pos}
use didicafe.Base.Map
use didicafe.AdminSession as Sessions
use didicafe.TokenCode.{generate_code}
use didicafe.Db.Models.{Plan, TokenStatus}
use didicafe.Db.Tables.{Database, empty, token_view}
use didicafe.Db.Plans as Plan_rows
use didicafe.Db.Tokens as Token_rows
use didicafe.Db.Audit.{audit_log}
use didicafe.Firewall.Mock.{mock_firewall}
use didicafe.World.{World, ServiceError, execute}
use didicafe.TokenService.{Draws, generate_codes, insert_codes, generate_tokens}
use didicafe.TokenService.Batch.{added}
use didicafe.Login.{extract_cookie, cookie_in}
use didicafe.Web.Input.{validate_plan_input}
use didicafe.Web.Extract.{admin_session, session_of, IsLoggedIn}
use didicafe.Api as Api
use didicafe.Api.{Reply, Call, api}
use didicafe.Api.Served.{ApiState, handle, handle_changes}
use didicafe.Api.Tokens.{generate_tokens_ok}
use didicafe.Api.Plans.{update_plan_ok}
use didicafe.Web.Input.{IsPlanInput}
use didicafe.Manage.{add_codes}
use didicafe.Manage.Batch.{add_codes-generate_tokens}
use didicafe.Tests.Samples.{sample_config, parts, store, to_string}

abbrev plan : Plan
plan = record {
  id = 1;
  name = lit "1h";
  duration_minutes = pos 60;
  price_ariary = pos 1000;
  active = true;
  created_at = 0;
}

-- One plan and one unused token of it.
abbrev db : Database
db = record empty {
  plans = plan ∷ [];
  next_plan = 2;
  tokens =
      record {
        id = 1;
        code = lit "WIFI-CCCC-CCCC";
        name = none;
        plan_id = 1;
        status = TokenStatus.unused;
        created_at = 0;
        redeemed_at = none;
        expires_at = none;
      }
      ∷ [];
  next_token = 2;
}

abbrev world : World mock_firewall
world = record { db = db; firewall = []; io = [] }

-- The third statement fails.
abbrev failing : World mock_firewall
failing = record { db = db; firewall = []; io = false ∷ true ∷ [] }

abbrev describe : ServiceError → Str
describe e = lit "error"

-- Code number `i` is made of the set's letter `i`.
abbrev draws : Draws
draws i = (λ n. i % 2, λ n. i % 2)

abbrev in_range : (j n : ℕ) → (draws j).0 n < length sample_config.token.charset
in_range j n = omega arith

ascii : IsAscii sample_config.token.charset
ascii = ground arith

abbrev two : List Str
two = lit "WIFI-AAAA-AAAA" ∷ lit "WIFI-BBBB-BBBB" ∷ []

batch :
    (generate_tokens mock_firewall sample_config.token draws 1 2 (some (lit "table 4")) 5 world).0
    ≡ ok two
unfolding generate_tokens generate_codes generate_code pick_all insert_codes execute
    Token_rows.create_token list_beq
batch = refl

abbrev batch_request : Api.GenerateTokensRequest
batch_request = record { plan_id = 1; count = 2; name = lit "table 4" }

batch_answer :
    (Api.generate_tokens mock_firewall sample_config to_string batch_request draws 5 world).0
    ≡ ok (Api.created_tokens two)
unfolding Api.generate_tokens Api.check_request Plan_rows.get_plan generate_tokens generate_codes
    generate_code pick_all insert_codes execute Token_rows.create_token list_beq
batch_answer = refl

generate_tokens_ok_example :
    (p : Plan) × (codes : List Str) × (Plan_rows.get_plan db 1 ≡ some p)
    × (p.active ≡ true)
    × (lit "table 4" ≢ [])
    × (byte_len (lit "table 4") ≤ 200)
    × (1 ≤ 2)
    × (2 ≤ 100)
    × (length codes ≡ 2)
    × (Api.created_tokens two ≡ Api.created_tokens codes)
    × ((Api.generate_tokens mock_firewall sample_config to_string batch_request draws 5
          world).1.db.tokens
        ≡ db.tokens ++ added (some (lit "table 4")) 1 5 2 codes)
generate_tokens_ok_example =
    generate_tokens_ok mock_firewall sample_config to_string 5 batch_request draws world
      (Api.created_tokens two) batch_answer

revoked : (Api.revoke_token mock_firewall sample_config to_string 1 5 world).0 ≡ ok Api.no_content
unfolding Api.revoke_token Token_rows.get_token_by_id token_view execute
revoked = refl

toggled :
    (Api.toggle_plan_active mock_firewall sample_config to_string 1 false world).0
    ≡ ok (Api.toggled_plan 1 false)
unfolding Api.toggle_plan_active Plan_rows.get_plan Plan_rows.update_plan execute
toggled = refl

abbrev plan_request : Api.UpdatePlanRequest
plan_request = record {
  name = lit "2h";
  duration_minutes = pos 120;
  price_ariary = pos 1800;
  active = true;
}

updated :
    (Api.update_plan mock_firewall sample_config to_string 1 plan_request 5 world).0
    ≡ ok (Api.updated_plan 1)
unfolding Api.update_plan validate_plan_input Plan_rows.update_plan execute
updated = refl

update_plan_ok_example :
    (p : Plan) × (Plan_rows.get_plan db 1 ≡ some p)
    × IsPlanInput (lit "2h") (pos 120) (pos 1800)
    × (Plan_rows.get_plan
          (Api.update_plan mock_firewall sample_config to_string 1 plan_request 5 world).1.db
          1
        ≡ some (record p {
          name = lit "2h";
          duration_minutes = pos 120;
          price_ariary = pos 1800;
          active = true;
        }))
update_plan_ok_example =
    update_plan_ok mock_firewall sample_config to_string 1 plan_request 5 world (Api.updated_plan 1)
      updated

abbrev app : ApiState mock_firewall
app = record { world = world; admin_sessions = store }

handled_plan :
    (handle mock_firewall sample_config to_string describe parts
      (Api.updates_plan 1 plan_request)
      20
      5
      app).0
    ≡ ok (Api.updated_plan 1)
unfolding handle api admin_session session_of Sessions.validate extract_cookie cookie_in
    strip_prefix Map.get list_beq Api.update_plan validate_plan_input Plan_rows.update_plan execute
handled_plan = refl

logged_once :
    (handle mock_firewall sample_config to_string describe parts
      (Api.updates_plan 1 plan_request)
      20
      5
      app).1.world.db.next_audit
    ≡ 2
unfolding handle api admin_session session_of Sessions.validate extract_cookie cookie_in
    strip_prefix Map.get list_beq Api.update_plan validate_plan_input Plan_rows.update_plan execute
    audit_log
logged_once = refl

changed :
    (handle mock_firewall sample_config to_string describe parts
      (Api.updates_plan 1 plan_request)
      20
      5
      app).1.world
    ≢ world
changed e = absurd (omega (arith, logged_once, ap (λ (w : World mock_firewall). w.db.next_audit) e))

handle_changes_example : IsLoggedIn parts store 20
handle_changes_example =
    handle_changes mock_firewall sample_config to_string describe parts
      (Api.updates_plan 1 plan_request) 20 5 app changed

add_codes-generate_tokens_example :
    (add_codes mock_firewall sample_config to_string 1
      (lit "table 4")
      2
      draws
      5
      failing).1.db.tokens
    ≡ (Api.generate_tokens mock_firewall sample_config to_string batch_request draws 5
        failing).1.db.tokens
add_codes-generate_tokens_example =
    add_codes-generate_tokens mock_firewall sample_config to_string 5 1 2 (lit "table 4") draws
      failing (omega arith)
