-- ===== src/Db/Stats.antt =====
-- src/db/mod.rs: the two statistics. A date is its number of days since the epoch, so that
-- `date('now')` is the day of a clock reading; a clock reading is in nanoseconds.
pub mod Week
pub mod Purge
use didicafe.Base.{
  ℕ, zero, suc, ◌+◌, ◌-◌, ◌*◌, ◌/◌, Bool, false, ◌&&◌, ◌||◌, Option, none, some, List, [], ◌∷◌, ltb,
  leb, eqb, if◌then◌else◌, retain, map,
}
use didicafe.Base.Int.{ℤ, pos, ◌+ℤ◌}
use didicafe.Db.Models.{TokenStatus, seconds}
use didicafe.Db.Tables.{Database, TokenRow, count_where, join_rows, plan_by_id}
use didicafe.Db.Tokens.{has_status}
use didicafe.Db.Sessions.{is_live}

pub record DailyStats : Type 0 where
  pub tokens_sold : ℕ
  pub active_sessions : ℕ
  pub revenue_ariary : ℤ

pub record DayStats : Type 0 where
  pub date : ℕ
  pub tokens_sold : ℕ
  pub revenue_ariary : ℤ

-- `date(…)` of a stored moment.
abbrev pub date_of : ℕ → ℕ
date_of moment = moment / 86400

-- `date('now')`
abbrev pub today : ℕ → ℕ
today now = date_of (seconds now)

-- `status IN ('active', 'expired')`
abbrev pub is_sold : TokenRow → Bool
is_sold t = has_status TokenStatus.active t || has_status TokenStatus.expired t

-- `redeemed_at >= date('now')`, of texts: a moment's text is not before a day's text exactly when the
-- moment is on that day or later. NULL satisfies no comparison.
abbrev pub redeemed_from : ℕ → TokenRow → Bool
redeemed_from day t = elim t.redeemed_at [ none ↦ false | some r ↦ leb day (date_of r) ]

-- `date(redeemed_at) = dates.d`
abbrev pub redeemed_on : ℕ → TokenRow → Bool
redeemed_on day t = elim t.redeemed_at [ none ↦ false | some r ↦ eqb (date_of r) day ]

abbrev pub sum_ariary : List ℤ → ℤ
sum_ariary [] = pos 0
sum_ariary (price ∷ prices) = price +ℤ sum_ariary prices

abbrev pub price_of : Database → TokenRow → Option ℤ
price_of db t = elim (plan_by_id db t.plan_id) [ none ↦ none | some p ↦ some p.price_ariary ]

-- `COALESCE(SUM(p.price_ariary), 0) FROM token t JOIN plan p ON t.plan_id = p.id WHERE …`
unfoldable pub revenue_where : Database → (TokenRow → Bool) → ℤ
revenue_where db p = sum_ariary (join_rows (price_of db) (retain p db.tokens))

unfoldable pub get_daily_stats : Database → ℕ → DailyStats
get_daily_stats db now = record {
  tokens_sold = count_where (λ t. redeemed_from (today now) t && is_sold t) db.tokens;
  active_sessions = count_where (is_live now) db.sessions;
  revenue_ariary = revenue_where db (λ t. redeemed_from (today now) t && is_sold t);
}

-- The recursive table `dates`: a day, and while it is before the last one, the days after it. Fuel
-- bounds the rounds.
unfoldable pub dates : ℕ → ℕ → ℕ → List ℕ
dates zero d last = []
dates (suc fuel) d last =
    let later = dates fuel (d + 1) last in d ∷ (if ltb d last then later else [])

-- One row of the query's answer.
unfoldable pub day_stats : Database → ℕ → DayStats
day_stats db day = record {
  date = day;
  tokens_sold = count_where (λ t. redeemed_on day t && is_sold t) db.tokens;
  revenue_ariary = revenue_where db (λ t. redeemed_on day t && is_sold t);
}

-- The table has seven days, so as much fuel is enough (Db/Stats/Week).
unfoldable pub get_weekly_stats : Database → ℕ → List DayStats
get_weekly_stats db now = map (day_stats db) (dates 7 (today now - 6) (today now))
