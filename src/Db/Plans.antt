-- ===== src/Db/Plans.antt =====
-- src/db/mod.rs: the statements about plans, and the settings.
use didicafe.Base.{
  ℕ, ◌+◌, Bool, true, Option, List, [], ◌∷◌, ◌++◌, eqb, if◌then◌else◌, Str, str_eq, retain, any,
}
use didicafe.Base.Int.{ℤ, leb_ℤ}
use didicafe.Base.Map
use didicafe.Db.Models.{Plan, seconds}
use didicafe.Db.Tables.{Database, plan_by_id, update_where}

-- `ORDER BY duration_minutes`
unfoldable pub insert_by_duration : Plan → List Plan → List Plan
insert_by_duration p [] = p ∷ []
insert_by_duration p (q ∷ plans) =
    if leb_ℤ p.duration_minutes q.duration_minutes
    then p ∷ q ∷ plans
    else q ∷ insert_by_duration p plans

unfoldable pub order_by_duration : List Plan → List Plan
order_by_duration [] = []
order_by_duration (p ∷ plans) = insert_by_duration p (order_by_duration plans)

unfoldable pub list_plans : Database → List Plan
list_plans db = order_by_duration db.plans

unfoldable pub list_active_plans : Database → List Plan
list_active_plans db = order_by_duration (retain (λ p. p.active) db.plans)

unfoldable pub create_plan : Database → Str → ℤ → ℤ → ℕ → ℕ × Database
create_plan db name duration_minutes price_ariary now = (
  db.next_plan,
  record db {
    plans =
        db.plans
        ++ record {
          id = db.next_plan;
          name = name;
          duration_minutes = duration_minutes;
          price_ariary = price_ariary;
          active = true;
          created_at = seconds now;
        }
          ∷ [];
    next_plan = db.next_plan + 1;
  },
)

unfoldable pub get_plan : Database → ℕ → Option Plan
get_plan db id = plan_by_id db id

-- The answer is `rows_affected() > 0`.
unfoldable pub update_plan : Database → ℕ → Str → ℤ → ℤ → Bool → Bool × Database
update_plan db id name duration_minutes price_ariary active = (
  any (λ (p : Plan). eqb p.id id) db.plans,
  record db {
    plans =
        update_where (λ (p : Plan). eqb p.id id)
          (λ p. record p {
            name = name;
            duration_minutes = duration_minutes;
            price_ariary = price_ariary;
            active = active;
          })
          db.plans;
  },
)

unfoldable pub get_setting : Database → Str → Option Str
get_setting db key = Map.get key db.settings

-- `INSERT … ON CONFLICT(key) DO UPDATE`
unfoldable pub set_setting : Database → Str → Str → Database
set_setting db key value = record db { settings = Map.insert key value db.settings }
