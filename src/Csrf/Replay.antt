-- ===== src/Csrf/Replay.antt =====
-- src/services/csrf.rs: a token is good for one submission.
use didicafe.Base.{
  ℕ, ◌≡◌, Bool, false, none, List, [], ◌∷◌, ◌==◌, Str, str_eq, to_lowercase, arith, All, beq_refl,
}
use didicafe.Base.Map
use didicafe.Csrf.{PortalCsrfStore, generate, get_or_generate, validate, keep_fresh}
use didicafe.Csrf.Tokens.{IsValid, generate-IsValid, validate-IsValid}

-- A request that reaches the store, with its clock reading.
pub data Call : Type 0 where
  generates : Str → Str → Call
  gets_or_generates : Str → Str → Call
  validates : Str → Str → Call

pub step : PortalCsrfStore → Call × ℕ → PortalCsrfStore
step s (generates mac token, now) = (generate s mac now token).1
step s (gets_or_generates mac token, now) = (get_or_generate s mac now token).1
step s (validates mac submitted, now) = (validate s mac submitted now).1

pub run : PortalCsrfStore → List (Call × ℕ) → PortalCsrfStore
run s [] = s
run s (c ∷ calls) = run (step s c) calls

-- Whether a call can issue a token for `mac`.
abbrev pub issues_for : Str → Call × ℕ → Bool
issues_for mac (generates other token, now) = to_lowercase other == to_lowercase mac
issues_for mac (gets_or_generates other token, now) = to_lowercase other == to_lowercase mac
issues_for mac (validates other submitted, now) = false

absent-generate :
    (s : PortalCsrfStore) (mac other token : Str) (now : ℕ)
    → IsValid s
    → Map.get (to_lowercase mac) s.tokens ≡ none
    → (to_lowercase other == to_lowercase mac) ≡ false
    → Map.get (to_lowercase mac) (generate s other now token).1.tokens ≡ none
unfolding generate
absent-generate s mac other token now v e ne = ground (
  arith,
  Map.get-insert (to_lowercase other) (to_lowercase mac)
      (record { token = token; created_at = now }) (Map.retain (keep_fresh now) s.tokens),
  Map.get-retain-none (keep_fresh now) (to_lowercase mac) s.tokens e,
)

absent-step :
    (s : PortalCsrfStore) (mac : Str) (c : Call × ℕ)
    → IsValid s
    → Map.get (to_lowercase mac) s.tokens ≡ none
    → issues_for mac c ≡ false
    → Map.get (to_lowercase mac) (step s c).tokens ≡ none
unfolding step get_or_generate validate
absent-step s mac (generates other token, now) v e ne = absent-generate s mac other token now v e ne
absent-step s mac (gets_or_generates other token, now) v e ne =
    ground (arith, absent-generate s mac other token now v e ne)
absent-step s mac (validates other submitted, now) v e ne =
    ground (arith, Map.get-remove (to_lowercase other) (to_lowercase mac) s.tokens)

step-IsValid : (s : PortalCsrfStore) (c : Call × ℕ) → IsValid s → IsValid (step s c)
unfolding step get_or_generate
step-IsValid s (generates mac token, now) v = generate-IsValid s mac now token v
step-IsValid s (gets_or_generates mac token, now) v =
    ground (arith, generate-IsValid s mac now token v)
step-IsValid s (validates mac submitted, now) v = validate-IsValid s mac submitted now v

absent-run :
    (s : PortalCsrfStore) (mac : Str) (calls : List (Call × ℕ))
    → IsValid s
    → Map.get (to_lowercase mac) s.tokens ≡ none
    → All (λ c. issues_for mac c ≡ false) calls
    → Map.get (to_lowercase mac) (run s calls).tokens ≡ none
unfolding run
absent-run s mac [] v e a = e
absent-run s mac (c ∷ calls) v e a =
    absent-run (step s c) mac calls (step-IsValid s c v) (absent-step s mac c v e a.0) a.1

validate-removes :
    (s : PortalCsrfStore) (mac submitted : Str) (now : ℕ)
    → Map.get (to_lowercase mac) (validate s mac submitted now).1.tokens ≡ none
unfolding validate
validate-removes s mac submitted now =
    let key = to_lowercase mac in ground (arith, beq_refl key, Map.get-remove key key s.tokens)

-- Once a submission for a MAC has been examined, whatever the answer, every later submission for
-- it is refused until a token is issued for that MAC again: no accepted token can be replayed.
pub replay_refused :
    (s : PortalCsrfStore) (mac first second : Str) (now later : ℕ) (calls : List (Call × ℕ))
    → IsValid s
    → All (λ c. issues_for mac c ≡ false) calls
    → (validate (run (validate s mac first now).1 calls) mac second later).0 ≡ false
unfolding validate
replay_refused s mac first second now later calls v a = rw (
    absent-run (validate s mac first now).1 mac calls (validate-IsValid s mac first now v)
      (validate-removes s mac first now) a)
