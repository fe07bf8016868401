-- ===== src/RateLimit/Ban.antt =====
-- src/services/rate_limit.rs: a ban holds until it ends, whatever is called in between.
use mathlib.Core.Option
use didicafe.Base.{
  ℕ, ◌+◌, ◌-◌, ◌≤◌, ◌<◌, ◌≡◌, ◌∙◌, inl, inr, none, some, [], ◌∷◌, length, All, Option-cases, arith,
  beq_refl,
}
use didicafe.Base.Map
use didicafe.RateLimit.{
  IpAddr, ip_eq, RateLimiter, banned, from_secs, as_secs, at_least_one, live_ban, current_ban,
  live_bans, verdict, record_attempt, check_and_record, Calls, run,
}
use didicafe.RateLimit.View.{IsValid, view}
use didicafe.RateLimit.Refines.{record_attempt-ban, record_attempt-verdict}
use didicafe.RateLimit.Bounds.{check-IsValid}

-- Every call is made before `deadline`.
abbrev pub Before : ℕ → Calls → Type 0
Before deadline = All (λ c. c.1 < deadline)

live_bans-keeps :
    (s : RateLimiter) (ip : IpAddr) (now u : ℕ)
    → Map.Distinct s.bans
    → Map.get ip s.bans ≡ some u
    → now < u
    → Map.get ip (live_bans s now) ≡ some u
unfolding live_bans Option.bind
live_bans-keeps s ip now u d e h =
    Map.get-retain (λ until. live_ban now (some until)) ip s.bans d ∙ ground arith

-- A ban that has not ended outlives a recorded attempt of another address.
record_attempt-keeps :
    (s : RateLimiter) (ip other : IpAddr) (now u : ℕ)
    → Map.Distinct s.bans
    → Map.get ip s.bans ≡ some u
    → now < u
    → current_ban s other now ≡ none
    → Map.get ip (record_attempt s other now).1.bans ≡ some u
unfolding record_attempt current_ban
record_attempt-keeps s ip other now u d e h free = ground (
  arith,
  live_bans-keeps s ip now u d e h,
  ip_eq.equal_iff other ip,
  Map.get-insert other ip (now + from_secs s.config.ban_duration_seconds) (live_bans s now),
)

check-keeps :
    (s : RateLimiter) (ip other : IpAddr) (now u : ℕ)
    → Map.Distinct s.bans
    → Map.get ip s.bans ≡ some u
    → now < u
    → Map.get ip (check_and_record s other now).1.bans ≡ some u
unfolding check_and_record
check-keeps s ip other now u d e h = elim (Option-cases (current_ban s other now)) [
  | inl free ↦ rw (free, check_and_record) (record_attempt-keeps s ip other now u d e h free)
  | inr (w, live) ↦ rw (live, check_and_record) e
]

run-keeps :
    (s : RateLimiter) (ip : IpAddr) (u : ℕ) (calls : Calls)
    → IsValid s
    → Map.get ip s.bans ≡ some u
    → Before u calls
    → Map.get ip (run s calls).bans ≡ some u
unfolding run
run-keeps s ip u [] v e b = e
run-keeps s ip u ((j, t) ∷ calls) v e b =
    run-keeps (check_and_record s j t).1 ip u calls (check-IsValid s j t v)
      (check-keeps s ip j t u v.bans_distinct e b.0) b.1

check-banned :
    (s : RateLimiter) (ip : IpAddr) (t u : ℕ)
    → Map.get ip s.bans ≡ some u
    → t < u
    → (check_and_record s ip t).0 ≡ banned (at_least_one (as_secs (u - t)))
unfolding check_and_record current_ban
check-banned s ip t u e h = ground arith

module _ (s : RateLimiter) (ip : IpAddr) (now : ℕ) (v : IsValid s)
    (free : current_ban s ip now ≡ none)
    (many : s.config.ban_after_attempts ≤ length (view s ip now).recent + 1) where
  threshold-answer : (check_and_record s ip now).0 ≡ banned s.config.ban_duration_seconds
  unfolding check_and_record verdict
  threshold-answer = rw (free, check_and_record) (ground (arith, record_attempt-verdict s ip now v))

  threshold-ban :
      Map.get ip (check_and_record s ip now).1.bans
      ≡ some (now + from_secs s.config.ban_duration_seconds)
  unfolding check_and_record
  threshold-ban =
      rw (free, check_and_record, record_attempt-ban s ip now v (ground arith))
        (ground (
          arith,
          beq_refl ip,
          Map.get-insert ip ip (now + from_secs s.config.ban_duration_seconds) (live_bans s now),
        ))

-- The attempt that brings an address to the ban threshold is answered with the ban's duration.
-- From then on, before the ban ends, every call of that address is answered `banned` with the
-- whole seconds that are left (at least one), after any calls of any addresses in between.
pub ban_lasts :
    (s : RateLimiter) (ip : IpAddr) (now t : ℕ) (calls : Calls)
    → IsValid s
    → current_ban s ip now ≡ none
    → s.config.ban_after_attempts ≤ length (view s ip now).recent + 1
    → Before (now + from_secs s.config.ban_duration_seconds) calls
    → t < now + from_secs s.config.ban_duration_seconds
    → ((check_and_record s ip now).0 ≡ banned s.config.ban_duration_seconds)
      × ((check_and_record (run (check_and_record s ip now).1 calls) ip t).0
          ≡ banned (at_least_one (as_secs (now + from_secs s.config.ban_duration_seconds - t))))
ban_lasts s ip now t calls v free many b h =
    let until = now + from_secs s.config.ban_duration_seconds in
    let kept =
      run-keeps (check_and_record s ip now).1 ip until calls (check-IsValid s ip now v)
        (threshold-ban s ip now v free many) b in
    (threshold-answer s ip now v free many, check-banned _ ip t until kept h)
