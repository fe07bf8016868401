-- ===== src/RateLimit/View.antt =====
-- src/services/rate_limit.rs: what the limiter knows of one address, and a specification of a call
-- on that alone. Stale timestamps, ended bans and the entries of other addresses are not in it.
use mathlib.Core.Option
use didicafe.Base.{
  ℕ, ◌+◌, ◌-◌, ◌^◌, ◌≤◌, ◌<◌, ◌≡◌, ◌≢◌, refl, inl, inr, true, Option, none, some, List, [], ◌∷◌,
  ◌++◌, leb, if◌then◌else◌, length, is_empty, retain-retain, Option-cases, arith, beq_ne,
}
use didicafe.Base.Lists
use didicafe.Base.Map
use didicafe.RateLimit.{
  IpAddr, ip_eq, RateLimitConfig, RateLimiter, RateLimitResult, banned, from_secs, as_secs,
  in_window, at_least_one, live_ban, current_ban, live_bans, prune_entry, sweep, recorded, verdict,
  record_attempt, check_and_record,
}

-- The part of `Config::validate` that concerns the limiter, with the range of `u32`.
pub record IsLimit (c : RateLimitConfig) : Type 0 where
  pub max_positive : 0 < c.max_auth_attempts
  pub window_positive : 0 < c.auth_window_seconds
  pub ban_above : c.max_auth_attempts ≤ c.ban_after_attempts
  pub ban_u32 : c.ban_after_attempts < 2 ^ 32
  pub duration_positive : 0 < c.ban_duration_seconds

-- An entry, if there is one, has fewer than `n` timestamps.
abbrev pub EntryBelow : ℕ → Option (List ℕ) → Type 0
EntryBelow n none = Unit
EntryBelow n (some ts) = length ts < n

-- Keys are distinct, and no address has as many timestamps as the ban threshold.
pub record IsValid (s : RateLimiter) : Type 0 where
  pub limit : IsLimit s.config
  pub attempts_distinct : Map.Distinct s.attempts
  pub bans_distinct : Map.Distinct s.bans
  pub bounded : (ip : IpAddr) → EntryBelow s.config.ban_after_attempts (Map.get ip s.attempts)

-- The timestamps of an entry that are in the window.
abbrev pub recent_of : ℕ → ℕ → Option (List ℕ) → List ℕ
recent_of window now none = []
recent_of window now (some ts) = Lists.retain (in_window window now) ts

pub record IpView : Type 0 where
  pub ban : Option ℕ
  pub recent : List ℕ

unfoldable pub view : RateLimiter → IpAddr → ℕ → IpView
view s ip now = record {
  ban = current_ban s ip now;
  recent = recent_of (from_secs s.config.auth_window_seconds) now (Map.get ip s.attempts);
}

-- The specification: a call at `now` on what is known of the caller.
unfoldable pub spec_check : RateLimitConfig → IpView → ℕ → RateLimitResult × IpView
spec_check c v now = elim v.ban [
  | some ban_until ↦ (banned (at_least_one (as_secs (ban_until - now))), v)
  | none ↦
      if leb c.ban_after_attempts (length v.recent + 1)
      then (
        verdict c (length v.recent + 1),
        record { ban = some (now + from_secs c.ban_duration_seconds); recent = [] },
      )
      else (verdict c (length v.recent + 1), record { ban = none; recent = v.recent ++ now ∷ [] })
]

-- A timestamp that is in the window later is in it now.
in_window_earlier :
    (window now later ts : ℕ)
    → now ≤ later
    → in_window window later ts ≡ true
    → in_window window now ts ≡ true
in_window_earlier window now later ts h e = ground arith

pub recent-recent :
    (window now later : ℕ) (ts : List ℕ)
    → now ≤ later
    → Lists.retain (in_window window later) (Lists.retain (in_window window now) ts)
      ≡ Lists.retain (in_window window later) ts
recent-recent window now later ts h =
    retain-retain (in_window window later) (in_window window now)
      (λ a. in_window_earlier window now later a h) ts

prune_entry-recent :
    (window now later : ℕ) (o : Option (List ℕ))
    → now ≤ later
    → recent_of window later (Option.bind o (prune_entry window now)) ≡ recent_of window later o
unfolding Option.bind
prune_entry-recent window now later none h = refl
prune_entry-recent window now later (some ts) h =
    go (Lists.retain (in_window window now) ts) (recent-recent window now later ts h)
  where
    go :
        (kept : List ℕ)
        → Lists.retain (in_window window later) kept ≡ Lists.retain (in_window window later) ts
        → recent_of window later (if is_empty kept then none else some kept)
          ≡ Lists.retain (in_window window later) ts
    go [] e = e
    go (t ∷ kept) e = e

pub recent-sweep :
    (window now later : ℕ) (m : List (IpAddr × List ℕ)) (ip : IpAddr)
    → Map.Distinct m
    → now ≤ later
    → recent_of window later (Map.get ip (sweep window now m))
      ≡ recent_of window later (Map.get ip m)
unfolding sweep
recent-sweep window now later m ip d h = ground (
  arith,
  Map.get-retain (prune_entry window now) ip m d,
  prune_entry-recent window now later (Map.get ip m) h,
)

live_ban-bind :
    (now later : ℕ) (o : Option ℕ)
    → now ≤ later
    → live_ban later (Option.bind o (λ u. live_ban now (some u))) ≡ live_ban later o
unfolding Option.bind
live_ban-bind now later none h = refl
live_ban-bind now later (some u) h = ground arith

pub live_ban-live_bans :
    (s : RateLimiter) (ip : IpAddr) (now later : ℕ)
    → Map.Distinct s.bans
    → now ≤ later
    → live_ban later (Map.get ip (live_bans s now)) ≡ live_ban later (Map.get ip s.bans)
unfolding live_bans
live_ban-live_bans s ip now later d h = ground (
  arith,
  Map.get-retain (λ u. live_ban now (some u)) ip s.bans d,
  live_ban-bind now later (Map.get ip s.bans) h,
)

-- What a recorded attempt leaves for other addresses.
module _ (s : RateLimiter) (ip other : IpAddr) (now : ℕ) where
  record_attempt-config : (record_attempt s ip now).1.config ≡ s.config
  unfolding record_attempt
  record_attempt-config = ground arith

  record_attempt-attempts_ne :
      ip ≢ other
      → Map.get other (record_attempt s ip now).1.attempts
        ≡ Map.get other (sweep (from_secs s.config.auth_window_seconds) now s.attempts)
  unfolding record_attempt
  record_attempt-attempts_ne ne =
      let w = from_secs s.config.auth_window_seconds in
      let m = sweep w now s.attempts in
      ground (
        arith,
        beq_ne ip other ne,
        Map.get-insert ip other [] m,
        Map.get-insert ip other (recorded w now (Map.get ip m)) m,
      )

  record_attempt-bans_ne :
      ip ≢ other → Map.get other (record_attempt s ip now).1.bans ≡ Map.get other (live_bans s now)
  unfolding record_attempt
  record_attempt-bans_ne ne = ground (
    arith,
    beq_ne ip other ne,
    Map.get-insert ip other (now + from_secs s.config.ban_duration_seconds) (live_bans s now),
  )

  view-record_attempt_ne :
      (later : ℕ)
      → IsValid s
      → ip ≢ other
      → now ≤ later
      → view (record_attempt s ip now).1 other later ≡ view s other later
  unfolding view current_ban
  view-record_attempt_ne later v ne h = cc (
    record_attempt-config,
    record_attempt-attempts_ne ne,
    record_attempt-bans_ne ne,
    live_ban-live_bans s other now later v.bans_distinct h,
    recent-sweep (from_secs s.config.auth_window_seconds) now later s.attempts other
        v.attempts_distinct h,
  )

-- A call about one address leaves what is known of every other address, at any later time.
pub view-check_ne :
    (s : RateLimiter) (ip other : IpAddr) (now later : ℕ)
    → IsValid s
    → ip ≢ other
    → now ≤ later
    → view (check_and_record s ip now).1 other later ≡ view s other later
unfolding check_and_record
view-check_ne s ip other now later v ne h = elim (Option-cases (current_ban s ip now)) [
  | inl free ↦ rw (free, check_and_record) (view-record_attempt_ne s ip other now later v ne h)
  | inr (u, live) ↦ rw (live, check_and_record)
]

-- What is known later, when no call about the address comes in between.
unfoldable pub age : RateLimitConfig → IpView → ℕ → IpView
age c v later = record {
  ban = live_ban later v.ban;
  recent = Lists.retain (in_window (from_secs c.auth_window_seconds) later) v.recent;
}
