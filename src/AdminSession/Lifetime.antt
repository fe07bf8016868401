-- ===== src/AdminSession/Lifetime.antt =====
-- src/services/admin_session.rs: how long a session is accepted.
use didicafe.Base.{
  ℕ, ◌+◌, ◌<◌, ◌≡◌, Bool, false, none, some, List, [], ◌∷◌, ltb, ◌==◌, Str, str_eq, arith, All,
  beq_refl,
}
use didicafe.Base.Map
use didicafe.AdminSession.{
  AdminSessionStore, SessionData, create, csrf_token_of, validate_csrf, remove, validate,
}

-- A request that reaches the store, with its clock reading.
pub data Call : Type 0 where
  creates : Str → Str → Call
  validates : Str → Call
  removes : Str → Call

pub step : AdminSessionStore → Call × ℕ → AdminSessionStore
step s (creates session_id csrf, now) = (create s session_id csrf now).1
step s (validates session_id, now) = (validate s session_id now).1
step s (removes session_id, now) = remove s session_id

pub run : AdminSessionStore → List (Call × ℕ) → AdminSessionStore
run s [] = s
run s (c ∷ calls) = run (step s c) calls

-- Whether the call opens a session under `id`, or closes one.
abbrev pub opens : Str → Call × ℕ → Bool
opens id (creates session_id csrf, now) = session_id == id
opens id (validates session_id, now) = false
opens id (removes session_id, now) = false

abbrev pub closes : Str → Call × ℕ → Bool
closes id (creates session_id csrf, now) = false
closes id (validates session_id, now) = false
closes id (removes session_id, now) = session_id == id

-- A session that has not expired outlives every call that neither reopens nor closes it.
step-keeps :
    (s : AdminSessionStore) (id : Str) (d : SessionData) (c : Call × ℕ)
    → Map.get id s.sessions ≡ some d
    → opens id c ≡ false
    → closes id c ≡ false
    → c.1 < d.expires_at
    → Map.get id (step s c).sessions ≡ some d
unfolding step create validate remove
step-keeps s id d (creates session_id csrf, now) e o r h = ground (
  arith,
  Map.get-insert session_id id (record { expires_at = now + s.timeout; csrf_token = csrf })
      s.sessions,
)
step-keeps s id d (validates session_id, now) e o r h =
    ground (arith, str_eq.equal_iff session_id id, Map.get-remove session_id id s.sessions)
step-keeps s id d (removes session_id, now) e o r h =
    ground (arith, Map.get-remove session_id id s.sessions)

run-keeps :
    (s : AdminSessionStore) (id : Str) (d : SessionData) (calls : List (Call × ℕ))
    → Map.get id s.sessions ≡ some d
    → All (λ c. (opens id c ≡ false) × (closes id c ≡ false) × (c.1 < d.expires_at)) calls
    → Map.get id (run s calls).sessions ≡ some d
unfolding run
run-keeps s id d [] e a = e
run-keeps s id d (c ∷ calls) e a =
    run-keeps (step s c) id d calls (step-keeps s id d c e a.0.0 a.0.1 a.0.2) a.1

created :
    (s : AdminSessionStore) (id csrf : Str) (now : ℕ)
    → Map.get id (create s id csrf now).1.sessions
      ≡ some (record { expires_at = now + s.timeout; csrf_token = csrf })
unfolding create
created s id csrf now = ground (
  arith,
  beq_refl id,
  Map.get-insert id id (record { expires_at = now + s.timeout; csrf_token = csrf }) s.sessions,
)

-- A session that is created at `now` is accepted exactly before `now + timeout`, after any calls
-- made before then that neither log it out nor reuse its identifier, and over that time its form
-- token is exactly the one that it was created with.
pub session_lives :
    (s : AdminSessionStore) (id csrf submitted : Str) (now later : ℕ) (calls : List (Call × ℕ))
    → All (λ c. (opens id c ≡ false) × (closes id c ≡ false) × (c.1 < now + s.timeout)) calls
    → let s' = run (create s id csrf now).1 calls in
      ((validate s' id later).0 ≡ ltb later (now + s.timeout))
      × (validate_csrf s' id submitted ≡ (csrf == submitted))
      × (csrf_token_of s' id ≡ csrf)
unfolding validate validate_csrf csrf_token_of
session_lives s id csrf submitted now later calls a = ground (
  arith,
  run-keeps (create s id csrf now).1 id (record { expires_at = now + s.timeout; csrf_token = csrf })
      calls (created s id csrf now) a,
)

absent-step :
    (s : AdminSessionStore) (id : Str) (c : Call × ℕ)
    → Map.get id s.sessions ≡ none
    → opens id c ≡ false
    → Map.get id (step s c).sessions ≡ none
unfolding step create validate remove
absent-step s id (creates session_id csrf, now) e o = ground (
  arith,
  Map.get-insert session_id id (record { expires_at = now + s.timeout; csrf_token = csrf })
      s.sessions,
)
absent-step s id (validates session_id, now) e o =
    ground (arith, Map.get-remove session_id id s.sessions)
absent-step s id (removes session_id, now) e o =
    ground (arith, Map.get-remove session_id id s.sessions)

absent-run :
    (s : AdminSessionStore) (id : Str) (calls : List (Call × ℕ))
    → Map.get id s.sessions ≡ none
    → All (λ c. opens id c ≡ false) calls
    → Map.get id (run s calls).sessions ≡ none
unfolding run
absent-run s id [] e a = e
absent-run s id (c ∷ calls) e a = absent-run (step s c) id calls (absent-step s id c e a.0) a.1

removed : (s : AdminSessionStore) (id : Str) → Map.get id (remove s id).sessions ≡ none
unfolding remove
removed s id = ground (arith, beq_refl id, Map.get-remove id id s.sessions)

-- After a logout no call but a new login under the same identifier brings the session back: it is
-- refused, no form token is accepted for it, and the token that pages show for it is empty.
pub logged_out :
    (s : AdminSessionStore) (id submitted : Str) (later : ℕ) (calls : List (Call × ℕ))
    → All (λ c. opens id c ≡ false) calls
    → let s' = run (remove s id) calls in
      ((validate s' id later).0 ≡ false)
      × (validate_csrf s' id submitted ≡ false)
      × (csrf_token_of s' id ≡ [])
unfolding validate validate_csrf csrf_token_of
logged_out s id submitted later calls a =
    ground (arith, absent-run (remove s id) id calls (removed s id) a)
