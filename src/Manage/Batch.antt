-- ===== src/Manage/Batch.antt =====
-- src/web/admin.rs, src/web/api.rs: the page and the API sell the same batches.
use didicafe.Base.{
  ℕ, ◌≤◌, ◌≡◌, ◌↔◌, refl, Bool, true, false, Option, none, some, Str, lit, Result, ok, err, arith,
}
use didicafe.Config.{Config}
use didicafe.Db.Models.{Plan}
use didicafe.Db.Plans as Plan_rows
use didicafe.Db.Audit.{audit_log}
use didicafe.Firewall.{Firewall}
use didicafe.TokenService as Service
use didicafe.World.{World, execute, query}
use didicafe.Web.{AppError}
use didicafe.Web.Handler.{Handler, continue, lift, or_error, require, internally}
use didicafe.Api as Api
use didicafe.Api.{check_request}
use didicafe.Manage.{check_batch, add_codes, log}

-- For at least one code the limits of the page are those of the API.
same_limits :
    (plan_id count : ℕ) (name : Str)
    → 1 ≤ count
    → (check_batch name count ≡ ok tt)
      ↔ (check_request (record { plan_id = plan_id; count = count; name = name }) ≡ ok tt)
unfolding check_batch check_request
same_limits plan_id count name h = ground arith

module _ {fw : Firewall} {A B C : Type 0} where
  -- Two handlers that leave the same tokens.
  after :
      (r : Result AppError A × World fw) (k : A → Handler fw B) (l : A → Handler fw C)
      → ((a : A) (w : World fw) → (k a w).1.db.tokens ≡ (l a w).1.db.tokens)
      → (continue r k).1.db.tokens ≡ (continue r l).1.db.tokens
  after (ok a, w) k l h = h a w
  after (err e, w) k l h = refl

module _ {fw : Firewall} {B C : Type 0} where
  after_checks :
      (r s : Result AppError (Unit {0})) (w : World fw) (k : Handler fw B) (l : Handler fw C)
      → (r ≡ ok tt) ↔ (s ≡ ok tt)
      → (k w).1.db.tokens ≡ (l w).1.db.tokens
      → (continue (lift r w) (λ (u : Unit {0}). k)).1.db.tokens
        ≡ (continue (lift s w) (λ (u : Unit {0}). l)).1.db.tokens
  after_checks (ok u) (ok v) w k l iff h = h
  after_checks (err e) (err f) w k l iff h = refl
  after_checks (ok u) (err f) w k l iff h = absurd (ground (arith, iff))
  after_checks (err e) (ok v) w k l iff h = absurd (ground (arith, iff))

  after_found :
      {A : Type 0} (o : Option A) (d e : AppError) (w : World fw) (k : A → Handler fw B)
      (l : A → Handler fw C)
      → ((a : A) (w : World fw) → (k a w).1.db.tokens ≡ (l a w).1.db.tokens)
      → (continue (or_error o d w) k).1.db.tokens ≡ (continue (or_error o e w) l).1.db.tokens
  after_found none d e w k l h = refl
  after_found (some a) d e w k l h = h a w

  after_required :
      (b : Bool) (d e : AppError) (w : World fw) (k : Handler fw B) (l : Handler fw C)
      → (k w).1.db.tokens ≡ (l w).1.db.tokens
      → (continue (require b d w) (λ (u : Unit {0}). k)).1.db.tokens
        ≡ (continue (require b e w) (λ (u : Unit {0}). l)).1.db.tokens
  after_required true d e w k l h = h
  after_required false d e w k l h = refl

module _ (fw : Firewall) (config : Config) (to_string : ℕ → Str) (now : ℕ) where
  log-tokens :
      (target_id : Option ℕ) (detail : Str) (w : World fw)
      → (log fw config to_string
          (lit "generate_tokens")
          (lit "token")
          target_id
          detail
          now
          w).1.db.tokens
        ≡ w.db.tokens
  unfolding execute audit_log
  log-tokens target_id detail w = ground arith

  -- The page and the API, asked for the same batch of at least one code with the same draws, leave the
  -- same tokens, whatever plan is named, whichever check refuses and whichever statement fails.
  pub add_codes-generate_tokens :
      (plan_id count : ℕ) (name : Str) (draws : Service.Draws) (w : World fw)
      → 1 ≤ count
      → (add_codes fw config to_string plan_id name count draws now w).1.db.tokens
        ≡ (Api.generate_tokens fw config to_string
            (record { plan_id = plan_id; count = count; name = name })
            draws
            now
            w).1.db.tokens
  unfolding add_codes Api.generate_tokens
  add_codes-generate_tokens plan_id count name draws w h =
      after_checks (check_batch name count)
        (check_request (record { plan_id = plan_id; count = count; name = name })) w _ _
        (same_limits plan_id count name h)
        (after (internally (query (λ db. Plan_rows.get_plan db plan_id)) w) _ _ (λ found w1.
          after_found {A = Plan} found _ _ w1 _ _ (λ plan w2.
            after_required plan.active _ _ w2 _ _ (
              after
                (internally
                  (Service.generate_tokens fw config.token draws plan_id count (some name) now) w2)
                _ _ (λ codes w3. log-tokens (some plan_id) _ w3)))))
