-- ===== src/Web/Handler.antt =====
-- src/web/: what a handler does: it answers or fails with an `AppError`, and what it did before it failed
-- stays done.
use didicafe.Base.{Bool, true, false, Option, none, some, Result, ok, err}
use didicafe.Firewall.{Firewall}
use didicafe.World.{World, Action, ServiceError}
use didicafe.Web.{AppError, internal}

abbrev pub Handler : Firewall → Type 0 → Type 0
Handler fw A = World fw → Result AppError A × World fw

module _ {fw : Firewall} where
  abbrev pub pure : {A : Type 0} → A → Handler fw A
  pure a w = (ok a, w)

  abbrev pub fail : {A : Type 0} → AppError → Handler fw A
  fail e w = (err e, w)

  abbrev pub continue :
      {A B : Type 0}
      → Result AppError A × World fw
      → (A → Handler fw B)
      → Result AppError B × World fw
  continue (ok a, w) f = f a w
  continue (err e, w) f = (err e, w)

  infixl 5 ◌>>=◌ ◌>>◌
  abbrev pub ◌>>=◌ : {A B : Type 0} → Handler fw A → (A → Handler fw B) → Handler fw B
  ◌>>=◌ m f w = continue (m w) f

  abbrev pub ◌>>◌ : {B : Type 0} → Handler fw (Unit {0}) → Handler fw B → Handler fw B
  m >> k = m >>= λ _. k

  abbrev pub convert :
      {A : Type 0}
      → (ServiceError → AppError)
      → Result ServiceError A × World fw
      → Result AppError A × World fw
  convert f (ok a, w) = (ok a, w)
  convert f (err e, w) = (err (f e), w)

  -- `.map_err(f)?`
  abbrev pub map_err : {A : Type 0} → (ServiceError → AppError) → Action fw A → Handler fw A
  map_err f m w = convert f (m w)

  -- `.map_err(AppError::Internal)?`
  abbrev pub internally : {A : Type 0} → Action fw A → Handler fw A
  internally = map_err (λ e. internal)

  -- `.ok()` on a result that nothing reads.
  abbrev pub discard : {A : Type 0} → Action fw A → Handler fw (Unit {0})
  discard m w = (ok tt, (m w).1)

  -- `.ok_or_else(…)?`
  abbrev pub or_error : {A : Type 0} → Option A → AppError → Handler fw A
  or_error none e = fail e
  or_error (some a) e = pure a

  -- `if … { return Err(…) }`, by what must hold.
  abbrev pub require : Bool → AppError → Handler fw (Unit {0})
  require true e = pure tt
  require false e = fail e

  abbrev pub lift : {A : Type 0} → Result AppError A → Handler fw A
  lift r w = (r, w)
