-- ===== src/World.antt =====
-- src/main.rs (`AppState`): the database and the firewall that the services share, and what an
-- operation on them is. Any statement may fail; `io` says of the coming statements which do, and a
-- statement that fails has changed nothing. An operation that fails keeps what it did before.
use didicafe.Base.{◌≡◌, arith, ℕ, Bool, List, [], ◌∷◌, if◌then◌else◌, Str, Result, ok, err}
use didicafe.Db.Tables.{Database, DbError}
use didicafe.Firewall.{Firewall}

pub record World (fw : Firewall) : Type 0 where
  pub db : Database
  pub firewall : fw.State
  pub io : List Bool

-- The `anyhow::Error` of a service, by its origin.
pub data ServiceError : Type 0 where
  database_error : ServiceError
  constraint_error : DbError → ServiceError
  firewall_error : Str → ServiceError
  session_not_found no_active_session already_expired : ℕ → ServiceError
  -- a panic: nothing answers the request
  panicked : ServiceError

abbrev pub Action : Firewall → Type 0 → Type 0
Action fw A = World fw → Result ServiceError A × World fw

module _ {fw : Firewall} where
  abbrev pub pure : {A : Type 0} → A → Action fw A
  pure a w = (ok a, w)

  abbrev pub fail : {A : Type 0} → ServiceError → Action fw A
  fail e w = (err e, w)

  abbrev pub continue :
      {A B : Type 0}
      → Result ServiceError A × World fw
      → (A → Action fw B)
      → Result ServiceError B × World fw
  continue (ok a, w) f = f a w
  continue (err e, w) f = (err e, w)

  infixl 5 ◌>>=◌ ◌>>◌
  abbrev pub ◌>>=◌ : {A B : Type 0} → Action fw A → (A → Action fw B) → Action fw B
  ◌>>=◌ m f w = continue (m w) f

  abbrev pub ◌>>◌ : {B : Type 0} → Action fw (Unit {0}) → Action fw B → Action fw B
  m >> k = m >>= λ _. k

  abbrev pub commit :
      {A : Type 0} → Result DbError (A × Database) → World fw → Result ServiceError A × World fw
  commit (ok (a, db)) w = (ok a, record w { db = db })
  commit (err e) w = (err (constraint_error e), w)

  -- One statement.
  unfoldable pub execute : {A : Type 0} → (Database → Result DbError (A × Database)) → Action fw A
  execute f w = elim w.io [
    | [] ↦ commit (f w.db) w
    | fails ∷ io ↦
        if fails
        then (err database_error, record w { io = io })
        else commit (f w.db) (record w { io = io })
  ]

  -- A statement that only reads, and one that only writes.
  abbrev pub query : {A : Type 0} → (Database → A) → Action fw A
  query f = execute (λ db. ok (f db, db))

  abbrev pub update : (Database → Database) → Action fw (Unit {0})
  update f = execute (λ db. ok (tt, f db))

  abbrev pub of_firewall :
      Result Str (Unit {0}) × fw.State → World fw → Result ServiceError (Unit {0}) × World fw
  of_firewall (ok u, s) w = (ok tt, record w { firewall = s })
  of_firewall (err e, s) w = (err (firewall_error e), record w { firewall = s })

  -- One call of the firewall.
  unfoldable pub call : (fw.State → Result Str (Unit {0}) × fw.State) → Action fw (Unit {0})
  call f w = of_firewall (f w.firewall) w

  -- `if let Err(e) = … { warn!(…) }`
  abbrev pub ignore : {A : Type 0} → Action fw A → Action fw (Unit {0})
  ignore m w = (ok tt, (m w).1)

  -- A statement that only reads changes neither the database nor the firewall, whether it fails or not.
  pub query-same :
      {A : Type 0} (f : Database → A) (w : World fw)
      → ((query f w).1.db ≡ w.db) × ((query f w).1.firewall ≡ w.firewall)
  unfolding execute
  query-same f w = ground arith

  -- What a statement that only reads answers when it does not fail.
  pub query_ok :
      {A : Type 0} (f : Database → A) (w : World fw) (a : A) → (query f w).0 ≡ ok a → a ≡ f w.db
  unfolding execute
  query_ok f w a h = ground arith

  -- Where no statement fails, a statement that only reads answers and leaves all as it was.
  pub query_quiet :
      {A : Type 0} (f : Database → A) (w : World fw) → w.io ≡ [] → query f w ≡ (ok (f w.db), w)
  unfolding execute
  query_quiet f w quiet = ground arith
