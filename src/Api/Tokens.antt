-- ===== src/Api/Tokens.antt =====
-- src/web/api.rs: what an answer about codes assures.
use didicafe.Base.{
  ℕ, ◌≤◌, ◌≡◌, ◌≢◌, refl, ap, ◌∙◌, true, Option, none, some, List, [], ◌++◌, Str, lit, byte_len,
  length, Result, ok, arith,
}
use didicafe.Config.{Config}
use didicafe.Db.Models.{Plan, Token, TokenStatus, token_status_beq}
use didicafe.Db.Tables.{Database}
use didicafe.Db.Plans as Plan_rows
use didicafe.Db.Tokens as Token_rows
use didicafe.Db.Audit.{audit_log}
use didicafe.Firewall.{Firewall}
use didicafe.World.{World, execute, query}
use didicafe.TokenService as Service
use didicafe.TokenService.Batch.{added, generate_tokens-added}
use didicafe.Web.{AppError, internal}
use didicafe.Web.Answered.{rewind, asked, did, found, required, lifted, acted}
use didicafe.Api.{
  Reply, GenerateTokensRequest, check_request, generate_tokens, revoke_token, log, created_tokens,
}

check_request_ok :
    (req : GenerateTokensRequest)
    → check_request req ≡ ok tt
    → (req.name ≢ []) × (byte_len req.name ≤ 200) × (1 ≤ req.count) × (req.count ≤ 100)
unfolding check_request
check_request_ok req h = ground arith

module _ (fw : Firewall) (config : Config) (to_string : ℕ → Str) (now : ℕ) where
  log-tokens :
      (action target_type : Str) (target_id : Option ℕ) (detail : Option Str) (w : World fw)
      → (log fw config to_string action target_type target_id detail now w).1.db.tokens
        ≡ w.db.tokens
  unfolding execute audit_log
  log-tokens action target_type target_id detail w = ground arith

  unused : (s : TokenStatus) → token_status_beq s TokenStatus.unused ≡ true → s ≡ TokenStatus.unused
  unused TokenStatus.unused h = refl
  unused TokenStatus.active h = absurd cc
  unused TokenStatus.expired h = absurd cc
  unused TokenStatus.revoked h = absurd cc

  abbrev Answer : Type 0
  Answer = Result AppError Reply

  answer : {a b : Reply} → (let answered : Answer = ok a in answered ≡ ok b) → b ≡ a
  answer h = cc

  -- A revocation that is confirmed was of a code that was there and unused, and has left the tokens as
  -- the statement does, whether or not the audit log could be written.
  pub revoke_token_ok :
      (id : ℕ) (w : World fw) (reply : Reply)
      → (revoke_token fw config to_string id now w).0 ≡ ok reply
      → (t : Token) × (Token_rows.get_token_by_id w.db id ≡ some t)
        × (t.status ≡ TokenStatus.unused)
        × ((revoke_token fw config to_string id now w).1.db.tokens
            ≡ (Token_rows.revoke_token w.db id).tokens)
  unfolding revoke_token
  revoke_token_ok id w reply h =
      let (db1, e1) = asked (λ db. Token_rows.get_token_by_id db id) _ w reply h in
      let w1 = (query (λ db. Token_rows.get_token_by_id db id) w).1 in
      let (t, there, e2) = found (Token_rows.get_token_by_id w.db id) _ _ w1 reply (rewind e1 h) in
      let (free, e3) =
        required (token_status_beq t.status TokenStatus.unused) _ _ w1 reply
          (rewind e2 (rewind e1 h)) in
      let revoke : Database → Unit {0} × Database = λ db. (tt, Token_rows.revoke_token db id) in
      let (db2, e4) = did revoke _ w1 reply (rewind e3 (rewind e2 (rewind e1 h))) in
      let w2 = (execute (λ db. ok (revoke db)) w1).1 in
      (
        t,
        there,
        unused t.status free,
        ap (λ r. r.1.db.tokens) (e1 ∙ (e2 ∙ (e3 ∙ e4)))
            ∙ (log-tokens (lit "revoke_token") (lit "token") (some id) none w2
                ∙ ap (λ db. db.tokens) (db2 ∙ ap (λ db. Token_rows.revoke_token db id) db1)),
      )

  -- An answer with codes comes only for an active plan, for 1 to 100 codes with a name of 1 to 200
  -- bytes; it names as many codes as were asked for, and each now stands as a new unused row of the plan.
  pub generate_tokens_ok :
      (req : GenerateTokensRequest) (draws : Service.Draws) (w : World fw) (reply : Reply)
      → (generate_tokens fw config to_string req draws now w).0 ≡ ok reply
      → (plan : Plan) × (codes : List Str) × (Plan_rows.get_plan w.db req.plan_id ≡ some plan)
        × (plan.active ≡ true)
        × (req.name ≢ [])
        × (byte_len req.name ≤ 200)
        × (1 ≤ req.count)
        × (req.count ≤ 100)
        × (length codes ≡ req.count)
        × (reply ≡ created_tokens codes)
        × ((generate_tokens fw config to_string req draws now w).1.db.tokens
            ≡ w.db.tokens ++ added (some req.name) req.plan_id now w.db.next_token codes)
  unfolding generate_tokens
  generate_tokens_ok req draws w reply h =
      let (valid, e1) = lifted (check_request req) _ w reply h in
      let h1 = rewind e1 h in
      let ask = λ (db : Database). Plan_rows.get_plan db req.plan_id in
      let (db1, e2) = asked ask _ w reply h1 in
      let w1 = (query ask w).1 in
      let h2 = rewind e2 h1 in
      let (plan, there, e3) = found (ask w.db) _ _ w1 reply h2 in
      let h3 = rewind e3 h2 in
      let (active, e4) = required plan.active _ _ w1 reply h3 in
      let batch =
        Service.generate_tokens fw config.token draws req.plan_id req.count (some req.name) now in
      let (codes, drawn, e5) = acted (λ e. internal) batch _ w1 reply (rewind e4 h3) in
      let (size, rows) =
        generate_tokens-added config.token draws req.plan_id req.count now (some req.name) w1 codes
          drawn in
      let (named, short, some_asked, few) = check_request_ok req valid in
      (
        plan,
        codes,
        there,
        active,
        named,
        short,
        some_asked,
        few,
        size,
        answer (rewind (e1 ∙ (e2 ∙ (e3 ∙ (e4 ∙ e5)))) h),
        ap (λ r. r.1.db.tokens) (e1 ∙ (e2 ∙ (e3 ∙ (e4 ∙ e5))))
            ∙ (rows
                ∙ ap
                    (λ (db : Database).
                      db.tokens ++ added (some req.name) req.plan_id now db.next_token codes)
                    db1),
      )
