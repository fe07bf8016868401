-- ===== src/TokenService.antt =====
-- src/services/token.rs: a batch of codes and their insertion, one statement each. `draws` are the
-- values that the random generator gives the two halves of each code.
pub mod Batch
use didicafe.Base.{ℕ, zero, suc, ◌+◌, Option, none, some, List, [], ◌∷◌, Str}
use didicafe.TokenCode.{TokenConfig, generate_code}
use didicafe.Db.Tokens.{create_token}
use didicafe.Firewall.{Firewall}
use didicafe.World.{Action, panicked, pure, fail, ◌>>=◌, ◌>>◌, execute}

abbrev pub Draws : Type 0
Draws = ℕ → (ℕ → ℕ) × (ℕ → ℕ)

abbrev pub add_code : Option Str → Option (List Str) → Option (List Str)
add_code (some code) (some codes) = some (code ∷ codes)
add_code _ _ = none

-- Codes number `i`, `i + 1`, … of the batch; an index out of range would panic.
unfoldable pub generate_codes : TokenConfig → Draws → ℕ → ℕ → Option (List Str)
generate_codes config draws i zero = some []
generate_codes config draws i (suc count) =
    add_code (generate_code config (draws i).0 (draws i).1)
      (generate_codes config draws (i + 1) count)

module _ (fw : Firewall) where
  -- The `for` loop, left at the first statement that fails.
  unfoldable pub insert_codes : Option Str → ℕ → ℕ → List Str → Action fw (Unit {0})
  insert_codes name plan_id now [] = pure tt
  insert_codes name plan_id now (code ∷ codes) =
      execute (λ db. create_token db code name plan_id now) >>= λ (id : ℕ).
      insert_codes name plan_id now codes

  abbrev pub insert_batch : Option Str → ℕ → ℕ → Option (List Str) → Action fw (List Str)
  insert_batch name plan_id now none = fail panicked
  insert_batch name plan_id now (some codes) = insert_codes name plan_id now codes >> pure codes

  unfoldable pub generate_tokens :
      TokenConfig → Draws → ℕ → ℕ → Option Str → ℕ → Action fw (List Str)
  generate_tokens config draws plan_id count name now =
      insert_batch name plan_id now (generate_codes config draws 0 count)
