-- ===== src/Base/Results.antt =====
-- `anyhow::ensure!` and `?` on results.
use mathlib.Core.Path.{◌≡◌, refl}
use mathlib.Core.Logic.{◌↔◌}
use mathlib.Core.Bool.{Bool, true, false}
use mathlib.Core.List.{List, [], ◌∷◌}
use native.Mathlib.Omega.{arith}
use didicafe.Base.Tests.{Result, ok, err}

module _ {E : Type 0} where
  abbrev pub ensure : Bool → E → Result E (Unit {0})
  ensure true e = ok tt
  ensure false e = err e

  infixl 5 ◌>>=◌ ◌>>◌
  abbrev pub ◌>>=◌ : {A B : Type 0} → Result E A → (A → Result E B) → Result E B
  ok a >>= k = k a
  err e >>= k = err e

  abbrev pub ◌>>◌ : {B : Type 0} → Result E (Unit {0}) → Result E B → Result E B
  m >> k = m >>= λ _. k

  -- A `for` loop of checks.
  abbrev pub ensure_each {ℓ} : {A : Type ℓ} → (A → Bool) → (A → E) → List A → Result E (Unit {0})
  ensure_each p e [] = ok tt
  ensure_each p e (x ∷ xs) = ensure (p x) (e x) >> ensure_each p e xs

  -- A check in front of the rest lets it through exactly when it holds.
  pub ensure_iff :
      {B : Type 0} (b : Bool) (e : E) (k : Result E B) (a : B)
      → (ensure b e >> k ≡ ok a) ↔ ((b ≡ true) × (k ≡ ok a))
  ensure_iff true e k a = (λ h. (refl, h), λ h. h.1)
  ensure_iff false e k a = ground arith
