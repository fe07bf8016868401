-- ===== src/Api/Plans.antt =====
-- src/web/api.rs: what an answer about a plan assures.
use didicafe.Base.{
  ℕ, ◌≡◌, refl, ap, ◌∙◌, Bool, true, Option, none, some, List, [], ◌∷◌, eqb, find, any, Bool-cases,
  inl, inr, Str, lit, ok, arith,
}
use didicafe.Config.{Config}
use didicafe.Db.Models.{Plan}
use didicafe.Db.Tables.{Database, update_where}
use didicafe.Db.Plans as Plan_rows
use didicafe.Db.Audit.{audit_log}
use didicafe.Firewall.{Firewall}
use didicafe.World.{World, execute, query}
use didicafe.Web.Answered.{rewind, asked, did, found, required, lifted}
use didicafe.Web.Input.{validate_plan_input, IsPlanInput, validate_plan_input-IsPlanInput}
use didicafe.Api.{Reply, UpdatePlanRequest, update_plan, toggle_plan_active, log}

-- The row that a change by id leaves is the changed row.
find-update :
    (id : ℕ) (f : Plan → Plan) (plans : List Plan) (p : Plan)
    → ((q : Plan) → (f q).id ≡ q.id)
    → find (λ (q : Plan). eqb q.id id) plans ≡ some p
    → find (λ (q : Plan). eqb q.id id) (update_where (λ (q : Plan). eqb q.id id) f plans)
      ≡ some (f p)
find-update id f [] p same h = absurd cc
find-update id f (q ∷ plans) p same h = ground (arith, same q, find-update id f plans p same)

-- A change that reports a row has found one.
any-find :
    (id : ℕ) (plans : List Plan)
    → any (λ (q : Plan). eqb q.id id) plans ≡ true
    → (p : Plan) × (find (λ (q : Plan). eqb q.id id) plans ≡ some p)
any-find id [] h = absurd cc
any-find id (q ∷ plans) h = elim (Bool-cases (eqb q.id id)) [
  | inl here ↦ (q, rw here refl)
  | inr there ↦ let (p, at) = any-find id plans (ground (arith, there)) in (p, rw there at)
]

module _ (fw : Firewall) (config : Config) (to_string : ℕ → Str) where
  log-plans :
      (action target_type : Str) (target_id : Option ℕ) (detail : Option Str) (now : ℕ)
      (w : World fw)
      → (log fw config to_string action target_type target_id detail now w).1.db.plans ≡ w.db.plans
  unfolding execute audit_log
  log-plans action target_type target_id detail now w = ground arith

  -- An answered change of a plan's availability changes that and nothing else of the plan.
  pub toggle_plan_active_ok :
      (id : ℕ) (active : Bool) (w : World fw) (reply : Reply)
      → (toggle_plan_active fw config to_string id active w).0 ≡ ok reply
      → (p : Plan) × (Plan_rows.get_plan w.db id ≡ some p)
        × (Plan_rows.get_plan (toggle_plan_active fw config to_string id active w).1.db id
            ≡ some (record p { active = active }))
  unfolding toggle_plan_active Plan_rows.get_plan Plan_rows.update_plan
  toggle_plan_active_ok id active w reply h =
      let ask = λ (db : Database). Plan_rows.get_plan db id in
      let (db1, e1) = asked ask _ w reply h in
      let w1 = (query ask w).1 in
      let h1 = rewind e1 h in
      let (p, there, e2) = found (ask w.db) _ _ w1 reply h1 in
      let h2 = rewind e2 h1 in
      let change = λ (db : Database).
        Plan_rows.update_plan db id p.name p.duration_minutes p.price_ariary active in
      let (db2, e3) = did change _ w1 reply h2 in
      let w2 = (execute (λ db. ok (change db)) w1).1 in
      let (reported, e4) = required (change w1.db).0 _ _ w2 reply (rewind e3 h2) in
      (
        p,
        there,
        ap (λ r. Plan_rows.get_plan r.1.db id) (e1 ∙ (e2 ∙ (e3 ∙ e4)))
            ∙ (ap (λ db. Plan_rows.get_plan db id) (db2 ∙ ap (λ db. (change db).1) db1)
                ∙ find-update id _ w.db.plans p (λ q. refl) there),
      )

  -- An answered change of a plan came with an input within the bounds, for a plan that was there, and
  -- leaves it with exactly the fields of the request, its id and its date.
  pub update_plan_ok :
      (id : ℕ) (req : UpdatePlanRequest) (now : ℕ) (w : World fw) (reply : Reply)
      → (update_plan fw config to_string id req now w).0 ≡ ok reply
      → (p : Plan) × (Plan_rows.get_plan w.db id ≡ some p)
        × IsPlanInput req.name req.duration_minutes req.price_ariary
        × (Plan_rows.get_plan (update_plan fw config to_string id req now w).1.db id
            ≡ some (record p {
              name = req.name;
              duration_minutes = req.duration_minutes;
              price_ariary = req.price_ariary;
              active = req.active;
            }))
  unfolding update_plan Plan_rows.get_plan Plan_rows.update_plan
  update_plan_ok id req now w reply h =
      let (valid, e1) =
        lifted (validate_plan_input req.name req.duration_minutes req.price_ariary) _ w reply h in
      let h1 = rewind e1 h in
      let change = λ (db : Database).
        Plan_rows.update_plan db id req.name req.duration_minutes req.price_ariary req.active in
      let (db1, e2) = did change _ w reply h1 in
      let w1 = (execute (λ db. ok (change db)) w).1 in
      let (reported, e3) = required (change w.db).0 _ _ w1 reply (rewind e2 h1) in
      let (p, there) = any-find id w.db.plans reported in
      (
        p,
        there,
        (validate_plan_input-IsPlanInput req.name req.duration_minutes req.price_ariary).0 valid,
        ap (λ r. Plan_rows.get_plan r.1.db id) (e1 ∙ (e2 ∙ e3))
            ∙ (ap (λ plans. find (λ (q : Plan). eqb q.id id) plans)
                  (log-plans (lit "update_plan") (lit "plan") (some id) none now w1
                    ∙ ap (λ db. db.plans) db1)
                ∙ find-update id _ w.db.plans p (λ q. refl) there),
      )
