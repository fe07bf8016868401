-- ===== src/RateLimit.antt =====
-- src/services/rate_limit.rs: the per-IP rate limiter of the token form and of the admin login.
-- A clock reading (`Instant::now()`) is an argument, in nanoseconds. A call takes its locks three
-- times: it reads the bans, then drops those that have ended, then counts and records the attempt. The
-- model runs one call after the other; in the source another call may come between these parts.
pub mod Bounds
pub mod View
pub mod Refines
pub mod Ban
pub mod Window
use didicafe.Base.{
  ℕ, ◌+◌, ◌-◌, ◌*◌, ◌/◌, ◌%◌, ◌^◌, Bool, true, false, ◌&&◌, not, Option, none, some, List, [], ◌∷◌,
  ◌++◌, ltb, leb, eqb, if◌then◌else◌, Eq, ◌==◌, length, is_empty, eqb_iff, ◌≡◌, ◌↔◌, arith,
}
use didicafe.Base.Lists
use didicafe.Base.Map

-- `std::net::IpAddr`, by the integer that its octets make.
pub data IpAddr : Type 0 where
  v4 : ℕ → IpAddr
  v6 : ℕ → IpAddr

abbrev pub ip_beq : IpAddr → IpAddr → Bool
ip_beq (v4 a) (v4 b) = eqb a b
ip_beq (v4 a) (v6 b) = false
ip_beq (v6 a) (v4 b) = false
ip_beq (v6 a) (v6 b) = eqb a b

pub ip_beq_iff : (a b : IpAddr) → (ip_beq a b ≡ true) ↔ (a ≡ b)
ip_beq_iff (v4 a) (v4 b) = ground arith
ip_beq_iff (v4 a) (v6 b) = ground arith
ip_beq_iff (v6 a) (v4 b) = ground arith
ip_beq_iff (v6 a) (v6 b) = ground arith

instance abbrev pub ip_eq : Eq IpAddr
ip_eq = record { equal = ip_beq; equal_iff = ip_beq_iff }

pub record RateLimitConfig : Type 0 where
  pub max_auth_attempts : ℕ
  pub auth_window_seconds : ℕ
  pub ban_after_attempts : ℕ
  pub ban_duration_seconds : ℕ

pub record RateLimiter : Type 0 where
  pub attempts : List (IpAddr × List ℕ)
  pub bans : List (IpAddr × ℕ)
  pub config : RateLimitConfig

pub data RateLimitResult : Type 0 where
  allowed : RateLimitResult
  throttled : RateLimitResult
  banned : ℕ → RateLimitResult

unfoldable pub new : RateLimitConfig → RateLimiter
new config = record { attempts = []; bans = []; config = config }

-- `Duration::from_secs`
abbrev pub from_secs : ℕ → ℕ
from_secs s = s * 1_000_000_000

-- `Duration::as_secs`
abbrev pub as_secs : ℕ → ℕ
as_secs d = d / 1_000_000_000

-- `duration_since` saturates at zero, as `-` does here.
abbrev pub in_window : ℕ → ℕ → ℕ → Bool
in_window window now ts = ltb (now - ts) window

-- `max` of `u64`
abbrev pub at_least_one : ℕ → ℕ
at_least_one n = if ltb n 1 then 1 else n

-- A ban that has not ended.
abbrev pub live_ban : ℕ → Option ℕ → Option ℕ
live_ban now none = none
live_ban now (some ban_until) = if ltb now ban_until then some ban_until else none

-- 1. the ban that is in force, if any
unfoldable pub current_ban : RateLimiter → IpAddr → ℕ → Option ℕ
current_ban s ip now = live_ban now (Map.get ip s.bans)

-- 2. `bans.retain(|_, ban_until| now < *ban_until)`
unfoldable pub live_bans : RateLimiter → ℕ → List (IpAddr × ℕ)
live_bans s now = Map.retain (λ ban_until. live_ban now (some ban_until)) s.bans

-- The closure of the sweep: prunes the timestamps, and drops an entry left empty.
abbrev pub prune_entry : ℕ → ℕ → List ℕ → Option (List ℕ)
prune_entry window now ts =
    let kept = Lists.retain (in_window window now) ts in if is_empty kept then none else some kept

-- The periodic sweep, run when the number of entries is a multiple of 256.
unfoldable pub sweep : ℕ → ℕ → List (IpAddr × List ℕ) → List (IpAddr × List ℕ)
sweep window now attempts =
    if not (is_empty attempts) && eqb (length attempts % 256) 0
    then Map.retain (prune_entry window now) attempts
    else attempts

-- `attempts.entry(ip).or_default()`, pruned, with this attempt pushed.
unfoldable pub recorded : ℕ → ℕ → Option (List ℕ) → List ℕ
recorded window now none = now ∷ []
recorded window now (some ts) = Lists.retain (in_window window now) ts ++ now ∷ []

-- 4. and 5.: what the count decides; `count` is `entry.len() as u32`.
unfoldable pub verdict : RateLimitConfig → ℕ → RateLimitResult
verdict c count =
    if leb c.ban_after_attempts count
    then banned c.ban_duration_seconds
    else if ltb c.max_auth_attempts count
    then throttled
    else allowed

-- 3. to 5., past the check for a ban in force
unfoldable pub record_attempt : RateLimiter → IpAddr → ℕ → RateLimitResult × RateLimiter
record_attempt s ip now =
    let window = from_secs s.config.auth_window_seconds in
    let attempts = sweep window now s.attempts in
    let entry = recorded window now (Map.get ip attempts) in
    let count = length entry % 2 ^ 32 in
    let bans = live_bans s now in
    if leb s.config.ban_after_attempts count
    then (
      verdict s.config count,
      record s {
        attempts = Map.insert ip [] attempts;
        bans = Map.insert ip (now + from_secs s.config.ban_duration_seconds) bans;
      },
    )
    else (verdict s.config count, record s { attempts = Map.insert ip entry attempts; bans = bans })

unfoldable pub check_and_record : RateLimiter → IpAddr → ℕ → RateLimitResult × RateLimiter
check_and_record s ip now = elim (current_ban s ip now) [
  | some ban_until ↦ (banned (at_least_one (as_secs (ban_until - now))), s)
  | none ↦ record_attempt s ip now
]

-- A history of calls, each with its address and its clock reading.
abbrev pub Calls : Type 0
Calls = List (IpAddr × ℕ)

unfoldable pub run : RateLimiter → Calls → RateLimiter
run s [] = s
run s ((ip, now) ∷ calls) = run (check_and_record s ip now).1 calls
