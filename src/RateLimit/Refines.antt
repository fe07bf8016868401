-- ===== src/RateLimit/Refines.antt =====
-- src/services/rate_limit.rs: a call decides by what is known of its own address alone, as the
-- specification says.
use didicafe.Base.{
  ℕ, ◌+◌, ◌%◌, ◌^◌, ◌≤◌, ◌<◌, ◌≡◌, ◌∙◌, ap, sym, refl, inl, inr, true, false, Option, none, some,
  List, [], ◌∷◌, ◌++◌, leb, length, length-append, length-retain-le, Option-cases, Bool-cases,
  arith, beq_refl,
}
use didicafe.Base.Lists
use didicafe.Base.Map
use didicafe.RateLimit.{
  IpAddr, ip_eq, RateLimiter, from_secs, in_window, live_ban, current_ban, live_bans, sweep,
  recorded, verdict, record_attempt, check_and_record,
}
use didicafe.RateLimit.View.{
  IsValid, EntryBelow, recent_of, view, age, spec_check, recent-recent, recent-sweep,
  live_ban-live_bans,
}

recorded_lem :
    (window now : ℕ) (o : Option (List ℕ))
    → recorded window now o ≡ recent_of window now o ++ now ∷ []
unfolding recorded
recorded_lem window now none = refl
recorded_lem window now (some ts) = refl

pub recent_of-recent_of :
    (window now later : ℕ) (o : Option (List ℕ))
    → now ≤ later
    → Lists.retain (in_window window later) (recent_of window now o) ≡ recent_of window later o
recent_of-recent_of window now later none h = refl
recent_of-recent_of window now later (some ts) h = recent-recent window now later ts h

live_ban-live_ban :
    (now later : ℕ) (o : Option ℕ)
    → now ≤ later
    → live_ban later (live_ban now o) ≡ live_ban later o
live_ban-live_ban now later none h = refl
live_ban-live_ban now later (some u) h = ground arith

module _ (s : RateLimiter) (ip : IpAddr) (now : ℕ) (v : IsValid s) where
  -- The entry that the call records.
  entry-view :
      recorded
        (from_secs s.config.auth_window_seconds)
        now
        (Map.get ip (sweep (from_secs s.config.auth_window_seconds) now s.attempts))
      ≡ (view s ip now).recent ++ now ∷ []
  unfolding view
  entry-view =
      let w = from_secs s.config.auth_window_seconds in
      recorded_lem w now (Map.get ip (sweep w now s.attempts))
      ∙ ap (λ r. r ++ now ∷ [])
          (recent-sweep w now now s.attempts ip v.attempts_distinct (omega arith))

  pub length-view_recent : length (view s ip now).recent < s.config.ban_after_attempts
  unfolding view
  length-view_recent = go (Map.get ip s.attempts) (v.bounded ip)
    where
      go :
          (o : Option (List ℕ))
          → EntryBelow s.config.ban_after_attempts o
          → length (recent_of (from_secs s.config.auth_window_seconds) now o)
            < s.config.ban_after_attempts
      go none b = omega (arith, v.limit.max_positive, v.limit.ban_above)
      go (some ts) b =
          omega (
            arith,
            length-retain-le {0} (in_window (from_secs s.config.auth_window_seconds) now) ts,
          )

  count-view :
      length (
          recorded
            (from_secs s.config.auth_window_seconds)
            now
            (Map.get ip (sweep (from_secs s.config.auth_window_seconds) now s.attempts)))
        % 2 ^ 32
      ≡ length (view s ip now).recent + 1
  count-view = rw entry-view (
      omega (
        arith,
        length-append {0} (view s ip now).recent (now ∷ []),
        length-view_recent,
        v.limit.ban_u32,
      ))

  pub record_attempt-verdict :
      (record_attempt s ip now).0 ≡ verdict s.config (length (view s ip now).recent + 1)
  unfolding record_attempt
  record_attempt-verdict = ground (arith, count-view)

  bans_self :
      (later : ℕ)
      → now ≤ later
      → current_ban s ip now ≡ none
      → live_ban later (Map.get ip (live_bans s now)) ≡ none
  unfolding current_ban
  bans_self later h free =
      live_ban-live_bans s ip now later v.bans_distinct h
      ∙ sym (live_ban-live_ban now later (Map.get ip s.bans) h)
      ∙ ap (live_ban later) free

  unfoldable pub swept : List (IpAddr × List ℕ)
  swept = sweep (from_secs s.config.auth_window_seconds) now s.attempts

  -- Below the ban threshold the attempt is recorded.
  pub record_attempt-below :
      leb s.config.ban_after_attempts (length (view s ip now).recent + 1) ≡ false
      → (record_attempt s ip now).1 ≡ record s {
        attempts = Map.insert ip ((view s ip now).recent ++ now ∷ []) swept;
        bans = live_bans s now;
      }
  unfolding record_attempt swept
  record_attempt-below few = ground (arith, count-view, entry-view)

  -- At the threshold the address is banned, and its timestamps are dropped.
  pub record_attempt-ban :
      leb s.config.ban_after_attempts (length (view s ip now).recent + 1) ≡ true
      → (record_attempt s ip now).1 ≡ record s {
        attempts = Map.insert ip [] swept;
        bans = Map.insert ip (now + from_secs s.config.ban_duration_seconds) (live_bans s now);
      }
  unfolding record_attempt swept
  record_attempt-ban many = ground (arith, count-view)

  view-record_below :
      (later : ℕ)
      → now ≤ later
      → current_ban s ip now ≡ none
      → leb s.config.ban_after_attempts (length (view s ip now).recent + 1) ≡ false
      → view (record_attempt s ip now).1 ip later
        ≡ age s.config (record { ban = none; recent = (view s ip now).recent ++ now ∷ [] }) later
  unfolding age
  view-record_below later h free few =
      let entry = (view s ip now).recent ++ now ∷ [] in
      rw (record_attempt-below few) (
        unfold view current_ban in
        ground (arith, beq_refl ip, Map.get-insert ip ip entry swept, bans_self later h free))

  view-record_ban :
      (later : ℕ)
      → leb s.config.ban_after_attempts (length (view s ip now).recent + 1) ≡ true
      → view (record_attempt s ip now).1 ip later
        ≡ age s.config
            (record { ban = some (now + from_secs s.config.ban_duration_seconds); recent = [] })
            later
  unfolding age
  view-record_ban later many =
      let until = now + from_secs s.config.ban_duration_seconds in
      rw (record_attempt-ban many) (
        unfold view current_ban in
        ground (
          arith,
          beq_refl ip,
          Map.get-insert ip ip [] swept,
          Map.get-insert ip ip until (live_bans s now),
        ))

  pub view-ban : (view s ip now).ban ≡ current_ban s ip now
  unfolding view
  view-ban = refl

  pub view-age : (later : ℕ) → now ≤ later → view s ip later ≡ age s.config (view s ip now) later
  unfolding view age current_ban
  view-age later h =
      let w = from_secs s.config.auth_window_seconds in
      cc (
        recent_of-recent_of w now later (Map.get ip s.attempts) h,
        live_ban-live_ban now later (Map.get ip s.bans) h,
      )

-- A call refines the specification: the answer is the one that the specification gives on what is
-- known of the caller, and what is known of it afterwards, at any later time, is what the
-- specification leaves, aged. So neither the sweep, nor the other addresses, nor stale entries,
-- nor the truncation of the count to 32 bits play a part.
pub check-spec_check :
    (s : RateLimiter) (ip : IpAddr) (now later : ℕ)
    → IsValid s
    → now ≤ later
    → ((check_and_record s ip now).0 ≡ (spec_check s.config (view s ip now) now).0)
      × (view (check_and_record s ip now).1 ip later
          ≡ age s.config (spec_check s.config (view s ip now) now).1 later)
unfolding spec_check check_and_record
check-spec_check s ip now later v h = elim (Option-cases (current_ban s ip now)) [
  | inl free ↦
      elim (Bool-cases (leb s.config.ban_after_attempts (length (view s ip now).recent + 1))) [
        | inl many ↦ ground (
          arith,
          view-ban s ip now v,
          record_attempt-verdict s ip now v,
          view-record_ban s ip now v later many,
        )
        | inr few ↦ ground (
          arith,
          view-ban s ip now v,
          record_attempt-verdict s ip now v,
          view-record_below s ip now v later h free few,
        )
      ]
  | inr (u, live) ↦ ground (arith, view-ban s ip now v, view-age s ip now v later h)
]
