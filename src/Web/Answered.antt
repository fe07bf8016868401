-- ===== src/Web/Answered.antt =====
-- src/web/: what a handler that answered has been through.
use didicafe.Base.{
  ◌≡◌, refl, sym, ap, ◌∙◌, Bool, true, false, Option, none, some, List, [], ◌∷◌, Result, ok, err,
  arith,
}
use didicafe.Db.Tables.{Database}
use didicafe.Firewall.{Firewall}
use didicafe.World.{World, Action, ServiceError, execute, query, query-same, query_ok}
use didicafe.Web.{AppError, internal}
use didicafe.Web.Handler.{
  Handler, continue, convert, ◌>>=◌, ◌>>◌, map_err, internally, or_error, require, lift,
}

module _ {fw : Firewall} where
  converted :
      {A : Type 0} (f : ServiceError → AppError) (r : Result ServiceError A × World fw) (a : A)
      → (convert f r).0 ≡ ok a
      → (r.0 ≡ ok a) × ((convert f r).1 ≡ r.1)
  converted f (ok a', w) a h = (ground arith, refl)
  converted f (err e, w) a h = absurd cc

  executed :
      {A : Type 0} (f : Database → A × Database) (w : World fw) (io : List Bool) (a : A)
      → (execute (λ db. ok (f db)) (record w { io = io })).0 ≡ ok a
      → (a ≡ (f w.db).0) × ((execute (λ db. ok (f db)) (record w { io = io })).1.db ≡ (f w.db).1)
  unfolding execute
  executed f w [] a h = (ground arith, refl)
  executed f w (true ∷ io) a h = absurd cc
  executed f w (false ∷ io) a h = (ground arith, refl)

module _ {fw : Firewall} {B : Type 0} where
  bound :
      {A : Type 0} (r : Result AppError A × World fw) (k : A → Handler fw B) (b : B)
      → (continue r k).0 ≡ ok b
      → (a : A) × (r.0 ≡ ok a) × (continue r k ≡ k a r.1)
  bound (ok a, w) k b h = (a, refl, refl)
  bound (err e, w) k b h = absurd cc

  -- A service that succeeded, and what follows it.
  pub acted :
      {A : Type 0} (f : ServiceError → AppError) (m : Action fw A) (k : A → Handler fw B)
      (w : World fw) (b : B)
      → ((map_err f m >>= k) w).0 ≡ ok b
      → (a : A) × ((m w).0 ≡ ok a) × ((map_err f m >>= k) w ≡ k a (m w).1)
  acted f m k w b h =
      let (a, done, same) = bound (convert f (m w)) k b h in
      let (answer, world) = converted f (m w) a done in (a, answer, same ∙ ap (k a) world)

  -- A query that did not fail.
  pub asked :
      {A : Type 0} (f : Database → A) (k : A → Handler fw B) (w : World fw) (b : B)
      → ((internally (query f) >>= k) w).0 ≡ ok b
      → ((query f w).1.db ≡ w.db) × ((internally (query f) >>= k) w ≡ k (f w.db) (query f w).1)
  asked f k w b h =
      let (a, answer, same) = acted (λ e. internal) (query f) k w b h in
      let (db, firewall) = query-same f w in
      (db, same ∙ ap (λ x. k x (query f w).1) (query_ok f w a answer))

  -- A statement that did not fail.
  pub did :
      {A : Type 0} (f : Database → A × Database) (k : A → Handler fw B) (w : World fw) (b : B)
      → ((internally (execute (λ db. ok (f db))) >>= k) w).0 ≡ ok b
      → ((execute (λ db. ok (f db)) w).1.db ≡ (f w.db).1)
        × ((internally (execute (λ db. ok (f db))) >>= k) w
            ≡ k (f w.db).0 (execute (λ db. ok (f db)) w).1)
  did f k w b h =
      let m = execute (λ db. ok (f db)) in
      let (a, answer, same) = acted (λ e. internal) m k w b h in
      let (value, db) = executed f w w.io a answer in (db, same ∙ ap (λ x. k x (m w).1) value)

  pub found :
      {A : Type 0} (o : Option A) (e : AppError) (k : A → Handler fw B) (w : World fw) (b : B)
      → ((or_error o e >>= k) w).0 ≡ ok b
      → (a : A) × (o ≡ some a) × ((or_error o e >>= k) w ≡ k a w)
  found (some a) e k w b h = (a, refl, refl)
  found none e k w b h = absurd cc

  pub required :
      (t : Bool) (e : AppError) (k : Handler fw B) (w : World fw) (b : B)
      → ((require t e >> k) w).0 ≡ ok b
      → (t ≡ true) × ((require t e >> k) w ≡ k w)
  required true e k w b h = (refl, refl)
  required false e k w b h = absurd cc

  pub lifted :
      (r : Result AppError (Unit {0})) (k : Handler fw B) (w : World fw) (b : B)
      → ((lift r >> k) w).0 ≡ ok b
      → (r ≡ ok tt) × ((lift r >> k) w ≡ k w)
  lifted (ok u) k w b h = (refl, refl)
  lifted (err e) k w b h = absurd cc

  -- What the rest of a handler answers.
  pub rewind : {r r' : Result AppError B × World fw} {b : B} → r ≡ r' → r.0 ≡ ok b → r'.0 ≡ ok b
  rewind e h = ap (λ x. x.0) (sym e) ∙ h
