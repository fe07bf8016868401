-- ===== src/Tests/Limits.antt =====
-- Runs of src/services/rate_limit.rs.
use didicafe.Base.{◌≡◌, ◌≢◌, ◌+◌, ◌-◌, length, refl, [], ◌∷◌, ◌≤◌, none, arith}
use didicafe.Base.Map
use didicafe.RateLimit.{
  IpAddr, v4, RateLimitConfig, RateLimiter, new, check_and_record, run, banned, from_secs,
  at_least_one, as_secs, current_ban,
}
use didicafe.RateLimit.View.{IsLimit, IsValid, view, spec_check, age}
use didicafe.RateLimit.Refines.{check-spec_check}
use didicafe.RateLimit.Bounds.{new-IsValid}
use didicafe.RateLimit.Ban.{ban_lasts}
use didicafe.RateLimit.Window.{allowed_in, allowed_in-le-max}

-- Two attempts in ten seconds, a ban of a minute from the third on.
abbrev config : RateLimitConfig
config = record {
  max_auth_attempts = 2;
  auth_window_seconds = 10;
  ban_after_attempts = 3;
  ban_duration_seconds = 60;
}

abbrev here : IpAddr
here = v4 3232235777

abbrev there : IpAddr
there = v4 3232235778

config-IsLimit : IsLimit config
config-IsLimit = record {
  max_positive = omega arith;
  window_positive = omega arith;
  ban_above = omega arith;
  ban_u32 = omega arith;
  duration_positive = omega arith;
}

-- After two attempts, a second apart.
abbrev tried : RateLimiter
tried = record {
  attempts = (here, from_secs 100 ∷ from_secs 101 ∷ []) ∷ [];
  bans = [];
  config = config;
}

tried-IsValid : IsValid tried
unfolding Map.get
tried-IsValid = record {
  limit = config-IsLimit;
  attempts_distinct = (refl, tt);
  bans_distinct = tt;
  bounded = λ ip. ground arith;
}

check-spec_check_example :
    ((check_and_record tried here (from_secs 102)).0
      ≡ (spec_check tried.config (view tried here (from_secs 102)) (from_secs 102)).0)
    × (view (check_and_record tried here (from_secs 102)).1 here (from_secs 130)
        ≡ age tried.config
            (spec_check tried.config (view tried here (from_secs 102)) (from_secs 102)).1
            (from_secs 130))
check-spec_check_example =
    check-spec_check tried here (from_secs 102) (from_secs 130) tried-IsValid (omega arith)

apart : here ≢ there
apart e = ground arith

free : current_ban tried here (from_secs 102) ≡ none
unfolding Map.get current_ban
free = refl

two_recent : length (view tried here (from_secs 102)).recent ≡ 2
unfolding view Map.get
two_recent = refl

ban_lasts_example :
    ((check_and_record tried here (from_secs 102)).0 ≡ banned 60)
    × ((check_and_record
          (run
            (check_and_record tried here (from_secs 102)).1
            ((there, from_secs 103) ∷ (here, from_secs 104) ∷ []))
          here
          (from_secs 150)).0
        ≡ banned (at_least_one (as_secs (from_secs 102 + from_secs 60 - from_secs 150))))
ban_lasts_example =
    ban_lasts tried here (from_secs 102) (from_secs 150)
      ((there, from_secs 103) ∷ (here, from_secs 104) ∷ []) tried-IsValid free
      (omega (arith, two_recent)) (omega arith, (omega arith, tt)) (omega arith)

allowed_in-le-max_example :
    allowed_in here (new config) (
      (here, from_secs 100)
      ∷ (there, from_secs 101)
      ∷ (here, from_secs 102)
      ∷ (here, from_secs 103)
      ∷ [])
    ≤ 2
unfolding new
allowed_in-le-max_example =
    allowed_in-le-max (new config) here (from_secs 100) (from_secs 104)
      ((here, from_secs 100)
        ∷ (there, from_secs 101)
        ∷ (here, from_secs 102)
        ∷ (here, from_secs 103)
        ∷ [])
      (new-IsValid config config-IsLimit)
      (omega arith, (omega arith, (omega arith, (omega arith, omega arith)))) (omega arith)
      (omega arith)
