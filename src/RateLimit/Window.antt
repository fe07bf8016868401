-- ===== src/RateLimit/Window.antt =====
-- src/services/rate_limit.rs: how many attempts of one address a window lets through.
use native.Mathlib.Nat.{zero-add}
use didicafe.Base.{
  ℕ, ◌+◌, ◌≤◌, ◌<◌, ◌≡◌, ◌≢◌, sym, subst, refl, inl, inr, ◌⊎◌, none, [], ◌∷◌, ◌++◌, if◌then◌else◌,
  length, ◌==◌, length-append, retain-append, length-retain-le, Bool-cases, arith,
}
use didicafe.Base.Lists
use didicafe.RateLimit.{
  IpAddr, ip_eq, RateLimitConfig, RateLimiter, RateLimitResult, allowed, throttled, banned,
  from_secs, in_window, verdict, record_attempt, check_and_record, Calls,
}
use didicafe.RateLimit.View.{IsLimit, IsValid, IpView, view, age, spec_check, view-check_ne}
use didicafe.RateLimit.Refines.{check-spec_check, view-age}
use didicafe.RateLimit.Bounds.{check-IsValid}

abbrev pub is_allowed : RateLimitResult → ℕ
is_allowed allowed = 1
is_allowed throttled = 0
is_allowed (banned n) = 0

-- How many calls of `ip` in the history are answered `allowed`.
pub allowed_in : IpAddr → RateLimiter → Calls → ℕ
allowed_in ip s [] = 0
allowed_in ip s ((j, now) ∷ calls) =
    (if j == ip then is_allowed (check_and_record s j now).0 else 0)
    + allowed_in ip (check_and_record s j now).1 calls

-- The clock does not run backwards between `first` and `last`.
abbrev pub Ascending : ℕ → ℕ → Calls → Type 0
Ascending first last [] = first ≤ last
Ascending first last ((j, now) ∷ calls) = (first ≤ now) × Ascending now last calls

pub Ascending-le : (first last : ℕ) (calls : Calls) → Ascending first last calls → first ≤ last
Ascending-le first last [] a = a
Ascending-le first last ((j, now) ∷ calls) a = omega (arith, Ascending-le now last calls a.1)

-- `k` calls can still be allowed to an address of which `v` is known: none during a ban, and never
-- more than the timestamps in the window leave room for.
abbrev Fits : RateLimitConfig → IpView → ℕ → Type 0
Fits c v k = ((v.ban ≡ none) ⊎ (k ≡ 0)) × ((k + length v.recent ≤ c.max_auth_attempts) ⊎ (k ≡ 0))

module _ (c : RateLimitConfig) (v : IpView) (now last rest : ℕ) (l : IsLimit c) (h : now ≤ last)
    (w : last < now + from_secs c.auth_window_seconds)
    (d : last < now + from_secs c.ban_duration_seconds) where
  recent_after :
      length
        (Lists.retain (in_window (from_secs c.auth_window_seconds) last) (v.recent ++ now ∷ []))
      ≡ length (Lists.retain (in_window (from_secs c.auth_window_seconds) last) v.recent) + 1
  recent_after =
      let p = in_window (from_secs c.auth_window_seconds) last in
      ground (
        arith,
        retain-append p v.recent (now ∷ []),
        length-append {0} (Lists.retain p v.recent) (now ∷ []),
      )

  -- One call at `now` on the specification's side, followed by `rest` calls that are allowed.
  spec_count :
      Fits c (age c (spec_check c v now).1 last) rest
      → Fits c (age c v last) (is_allowed (spec_check c v now).0 + rest)
  unfolding spec_check verdict age
  spec_count ih =
      let p = in_window (from_secs c.auth_window_seconds) last in
      ground (arith, recent_after, length-retain-le {0} p v.recent)

module _ (s : RateLimiter) (ip : IpAddr) (now last rest : ℕ) (v : IsValid s) (h : now ≤ last)
    (w : last < now + from_secs s.config.auth_window_seconds)
    (d : last < now + from_secs s.config.ban_duration_seconds) where
  count_self :
      Fits s.config (view (check_and_record s ip now).1 ip last) rest
      → Fits s.config (view s ip last) (is_allowed (check_and_record s ip now).0 + rest)
  count_self ih =
      let (answer, after) = check-spec_check s ip now last v h in
      rw (view-age s ip now v last h, answer)
        (spec_count s.config (view s ip now) now last rest v.limit h w d (rw after at ih))

  count-step :
      (j : IpAddr)
      → Fits s.config (view (check_and_record s j now).1 ip last) rest
      → Fits s.config
          (view s ip last)
          ((if j == ip then is_allowed (check_and_record s j now).0 else 0) + rest)
  count-step j ih = elim (Bool-cases (j == ip)) [
    | inl same ↦ rw same (
        subst
          (λ a.
            Fits s.config (view (check_and_record s a now).1 ip last) rest
            → Fits s.config (view s ip last) (is_allowed (check_and_record s a now).0 + rest))
          (sym ((ip_eq.equal_iff j ip).0 same)) count_self ih)
    | inr other ↦
        let apart : j ≢ ip = λ e. ground (arith, ip_eq.equal_iff j ip) in
        rw (other, ← view-check_ne s j ip now last v apart h, zero-add) ih
  ]

check-config :
    (s : RateLimiter) (ip : IpAddr) (now : ℕ) → (check_and_record s ip now).1.config ≡ s.config
unfolding check_and_record record_attempt
check-config s ip now = ground arith

allowed_in-Fits :
    (s : RateLimiter) (ip : IpAddr) (first last : ℕ) (calls : Calls)
    → IsValid s
    → Ascending first last calls
    → last < first + from_secs s.config.auth_window_seconds
    → last < first + from_secs s.config.ban_duration_seconds
    → Fits s.config (view s ip last) (allowed_in ip s calls)
unfolding allowed_in
allowed_in-Fits s ip first last [] v a w d = (inr refl, inr refl)
allowed_in-Fits s ip first last ((j, now) ∷ calls) v a w d =
    let s' = (check_and_record s j now).1 in
    let same = check-config s j now in
    count-step s ip now last (allowed_in ip s' calls) v (Ascending-le now last calls a.1)
      (omega (arith, a.0)) (omega (arith, a.0)) j
      (rw same at (
        allowed_in-Fits s' ip now last calls (check-IsValid s j now v) a.1 (rw same (omega arith))
          (rw same (omega arith))))

-- However calls of all addresses are mixed, an address gets at most `max_auth_attempts` answers
-- `allowed` in any history whose clock does not run backwards and that is shorter than the window
-- and than a ban.
pub allowed_in-le-max :
    (s : RateLimiter) (ip : IpAddr) (first last : ℕ) (calls : Calls)
    → IsValid s
    → Ascending first last calls
    → last < first + from_secs s.config.auth_window_seconds
    → last < first + from_secs s.config.ban_duration_seconds
    → allowed_in ip s calls ≤ s.config.max_auth_attempts
allowed_in-le-max s ip first last calls v a w d =
    ground (arith, allowed_in-Fits s ip first last calls v a w d)
