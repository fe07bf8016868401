-- ===== src/RateLimit/Bounds.antt =====
-- src/services/rate_limit.rs: the invariant of the limiter, kept by every call.
use mathlib.Core.Option
use didicafe.Base.{
  ℕ, ◌+◌, ◌%◌, ◌<◌, inl, inr, Bool, true, false, Option, none, some, List, [], ◌∷◌, ◌++◌, leb,
  if◌then◌else◌, eqb, ◌==◌, not, ◌&&◌, length, length-append, length-retain-le, is_empty,
  Option-cases, Bool-cases, arith,
}
use didicafe.Base.Map
use didicafe.RateLimit.{
  IpAddr, ip_eq, RateLimitConfig, RateLimiter, in_window, current_ban, live_bans, sweep,
  prune_entry, record_attempt, check_and_record, new,
}
use didicafe.RateLimit.View.{IsLimit, IsValid, EntryBelow, view}
use didicafe.RateLimit.Refines.{record_attempt-below, record_attempt-ban, swept}

pub new-IsValid : (c : RateLimitConfig) → IsLimit c → IsValid (new c)
unfolding new Map.get
new-IsValid c l = record {
  limit = l;
  attempts_distinct = tt;
  bans_distinct = tt;
  bounded = λ ip. tt;
}

sweep-Distinct :
    (w now : ℕ) (m : List (IpAddr × List ℕ)) → Map.Distinct m → Map.Distinct (sweep w now m)
unfolding sweep
sweep-Distinct w now m d = ground (arith, Map.retain-Distinct (prune_entry w now) m d)

-- The sweep makes entries shorter.
EntryBelow-bind :
    (w now n : ℕ) (o : Option (List ℕ))
    → EntryBelow n o
    → EntryBelow n (Option.bind o (prune_entry w now))
unfolding Option.bind
EntryBelow-bind w now n none b = tt
EntryBelow-bind w now n (some ts) b = ground (arith, length-retain-le {0} (in_window w now) ts)

sweep-EntryBelow :
    (w now n : ℕ) (m : List (IpAddr × List ℕ)) (ip : IpAddr)
    → Map.Distinct m
    → EntryBelow n (Map.get ip m)
    → EntryBelow n (Map.get ip (sweep w now m))
unfolding sweep
sweep-EntryBelow w now n m ip d b = elim (Bool-cases (not (is_empty m) && eqb (length m % 256) 0)) [
  | inl due ↦
      rw (due, Map.get-retain (prune_entry w now) ip m, d)
        (EntryBelow-bind w now n (Map.get ip m) b)
  | inr skip ↦ rw skip b
]

insert-EntryBelow :
    (n : ℕ) (ip other : IpAddr) (ts : List ℕ) (m : List (IpAddr × List ℕ))
    → length ts < n
    → EntryBelow n (Map.get other m)
    → EntryBelow n (Map.get other (Map.insert ip ts m))
insert-EntryBelow n ip other ts m h b = rw (Map.get-insert ip other ts m) (go (ip == other))
  where
    go : (c : Bool) → EntryBelow n (if c then some ts else Map.get other m)
    go true = h
    go false = b

module _ (s : RateLimiter) (ip : IpAddr) (now : ℕ) (v : IsValid s) where
  swept-Distinct : Map.Distinct (swept s ip now v)
  unfolding swept
  swept-Distinct = sweep-Distinct _ now s.attempts v.attempts_distinct

  swept-EntryBelow :
      (other : IpAddr) → EntryBelow s.config.ban_after_attempts (Map.get other (swept s ip now v))
  unfolding swept
  swept-EntryBelow other =
      sweep-EntryBelow _ now _ s.attempts other v.attempts_distinct (v.bounded other)

  live_bans-Distinct : Map.Distinct (live_bans s now)
  unfolding live_bans
  live_bans-Distinct = Map.retain-Distinct _ s.bans v.bans_distinct

  record_attempt-IsValid : IsValid (record_attempt s ip now).1
  record_attempt-IsValid =
      let entry = (view s ip now).recent ++ now ∷ [] in
      elim (Bool-cases (leb s.config.ban_after_attempts (length (view s ip now).recent + 1))) [
        | inl many ↦ rw (record_attempt-ban s ip now v many) (record {
          limit = v.limit;
          attempts_distinct = Map.insert-Distinct ip [] _ swept-Distinct;
          bans_distinct = Map.insert-Distinct ip _ _ live_bans-Distinct;
          bounded = λ other.
              insert-EntryBelow _ ip other [] _
                (omega (arith, v.limit.max_positive, v.limit.ban_above)) (swept-EntryBelow other);
        })
        | inr few ↦ rw (record_attempt-below s ip now v few) (record {
          limit = v.limit;
          attempts_distinct = Map.insert-Distinct ip entry _ swept-Distinct;
          bans_distinct = live_bans-Distinct;
          bounded = λ other.
              insert-EntryBelow _ ip other entry _
                (ground (arith, length-append {0} (view s ip now).recent (now ∷ [])))
                (swept-EntryBelow other);
        })
      ]

-- Every call keeps the invariant: keys stay distinct, and no address ever has as many timestamps as
-- the ban threshold, so the memory kept for an address is bounded.
pub check-IsValid :
    (s : RateLimiter) (ip : IpAddr) (now : ℕ) → IsValid s → IsValid (check_and_record s ip now).1
unfolding check_and_record
check-IsValid s ip now v = elim (Option-cases (current_ban s ip now)) [
  | inl free ↦ rw (free, check_and_record) (record_attempt-IsValid s ip now v)
  | inr (u, live) ↦ rw (live, check_and_record) v
]
