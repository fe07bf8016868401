-- ===== src/Db/Stats/Week.antt =====
-- src/db/mod.rs: the seven days of the weekly statistics, and their last day beside the daily ones.
use didicafe.Base.{
  ℕ, zero, suc, ◌+◌, ◌-◌, ◌≤◌, ◌<◌, ◌≡◌, refl, ap, sym, Bool, true, false, ◌&&◌, ◌||◌, none, some,
  List, [], ◌∷◌, ◌++◌, ltb, leb, if◌then◌else◌, retain, map, all, arith, ◌∙◌, subst,
}
use didicafe.Base.Int.{ℤ, pos, ◌+ℤ◌, +ℤ_zero, +ℤ_zero_right, +ℤ_interchange}
use didicafe.Db.Tables.{Database, TokenRow, count_where, join_rows}
use didicafe.Db.Stats.{
  DayStats, date_of, today, is_sold, redeemed_from, redeemed_on, revenue_where, dates, day_stats,
  price_of, sum_ariary, get_daily_stats, get_weekly_stats,
}

-- The days from one on, as many as asked for.
abbrev pub days_from : ℕ → ℕ → List ℕ
days_from zero d = []
days_from (suc n) d = d ∷ days_from n (d + 1)

-- With fuel beyond the distance to the last day, the table has every day up to it and ends there.
dates-days_from : (fuel n d : ℕ) → n < fuel → dates fuel d (d + n) ≡ days_from (suc n) d
unfolding dates
dates-days_from zero n d h = absurd (omega arith)
dates-days_from (suc fuel) zero d h = ground arith
dates-days_from (suc fuel) (suc n) d h =
    let e : d + suc n ≡ (d + 1) + n = omega arith in
    rw e (ground (arith, dates-days_from fuel n (d + 1)))

dates_week :
    (more now : ℕ)
    → 6 ≤ today now
    → dates (7 + more) (today now - 6) (today now) ≡ days_from 7 (today now - 6)
dates_week more now h =
    subst (λ last. dates (7 + more) (today now - 6) last ≡ days_from 7 (today now - 6))
      (let e : today now - 6 + 6 ≡ today now = omega arith in e)
      (dates-days_from (7 + more) 6 (today now - 6) (omega arith))

week_end : (d last : ℕ) → d + 6 ≡ last → days_from 7 d ≡ days_from 6 d ++ last ∷ []
week_end d last e = ground arith

-- Whatever more fuel is given, the recursive table of the weekly statistics stops after the same seven
-- days, the last of which is the day of the clock reading, from the seventh day of the epoch on.
pub dates_enough :
    (more now : ℕ)
    → 6 ≤ today now
    → dates (7 + more) (today now - 6) (today now) ≡ days_from 6 (today now - 6) ++ today now ∷ []
dates_enough more now h = dates_week more now h ∙ week_end (today now - 6) (today now) (omega arith)

-- No token is redeemed on a day after that of the clock reading.
abbrev pub is_past_sale : ℕ → TokenRow → Bool
is_past_sale now t = elim t.redeemed_at [ none ↦ true | some r ↦ leb (date_of r) (today now) ]

same_test :
    (now : ℕ) (t : TokenRow)
    → is_past_sale now t ≡ true
    → redeemed_on (today now) t ≡ redeemed_from (today now) t
same_test now t h = ground arith

-- Two tests that agree on the past agree on the rows.
module _ (now : ℕ) (p q : TokenRow → Bool)
    (agree : (t : TokenRow) → is_past_sale now t ≡ true → p t ≡ q t) where
  same_count :
      (rows : List TokenRow)
      → all (is_past_sale now) rows ≡ true
      → count_where (λ t. p t && is_sold t) rows ≡ count_where (λ t. q t && is_sold t) rows
  same_count [] h = refl
  same_count (t ∷ rows) h = ground (arith, agree t, same_count rows)

  same_rows :
      (rows : List TokenRow)
      → all (is_past_sale now) rows ≡ true
      → retain (λ t. p t && is_sold t) rows ≡ retain (λ t. q t && is_sold t) rows
  same_rows [] h = refl
  same_rows (t ∷ rows) h = ground (arith, agree t, same_rows rows)

-- From the seventh day of the epoch on, and where no token is redeemed after the day of the clock
-- reading, the weekly statistics are those of the seven days that end with that day, in order, and the
-- last of them shows the same tokens and the same revenue as the daily statistics do.
pub get_weekly_stats-get_daily_stats :
    (db : Database) (now : ℕ)
    → 6 ≤ today now
    → all (is_past_sale now) db.tokens ≡ true
    → get_weekly_stats db now
      ≡ map (day_stats db) (days_from 6 (today now - 6))
        ++ record {
          date = today now;
          tokens_sold = (get_daily_stats db now).tokens_sold;
          revenue_ariary = (get_daily_stats db now).revenue_ariary;
        }
          ∷ []
unfolding get_weekly_stats get_daily_stats day_stats revenue_where
get_weekly_stats-get_daily_stats db now h past = rw (dates_enough 0 now h) (
    rw (same_count now _ _ (same_test now) db.tokens past)
      (rw (same_rows now _ _ (same_test now) db.tokens past) refl))

-- `redeemed_at` lies on one of the `n` days from `d` on.
abbrev pub redeemed_within : ℕ → ℕ → TokenRow → Bool
redeemed_within d n t = elim t.redeemed_at [
  | none ↦ false
  | some r ↦ leb d (date_of r) && ltb (date_of r) (d + n)
]

first_day :
    (d n : ℕ) (t : TokenRow)
    → redeemed_within d (suc n) t ≡ (redeemed_on d t || redeemed_within (d + 1) n t)
first_day d n t = ground arith

apart : (d n : ℕ) (t : TokenRow) → redeemed_on d t ≡ true → redeemed_within (d + 1) n t ≡ false
apart d n t h = ground arith

count_day :
    (d n : ℕ) (rows : List TokenRow)
    → count_where (λ t. redeemed_within d (suc n) t && is_sold t) rows
      ≡ count_where (λ t. redeemed_on d t && is_sold t) rows
        + count_where (λ t. redeemed_within (d + 1) n t && is_sold t) rows
count_day d n [] = omega arith
count_day d n (t ∷ rows) = ground (arith, first_day d n t, apart d n t, count_day d n rows)

abbrev revenue_of : Database → (TokenRow → Bool) → List TokenRow → ℤ
revenue_of db p rows = sum_ariary (join_rows (price_of db) (retain p rows))

-- What one token adds to a revenue.
abbrev price_at : Database → TokenRow → ℤ
price_at db t = elim (price_of db t) [ none ↦ pos 0 | some price ↦ price ]

abbrev share : ℤ → Bool → ℤ
share price counted = if counted then price else pos 0

revenue-cons :
    (db : Database) (p : TokenRow → Bool) (t : TokenRow) (rows : List TokenRow)
    → revenue_of db p (t ∷ rows) ≡ share (price_at db t) (p t) +ℤ revenue_of db p rows
revenue-cons db p t rows = ground (arith, +ℤ_zero (revenue_of db p rows))

share-or :
    (price : ℤ) (one other sold : Bool)
    → (one ≡ true → other ≡ false)
    → share price ((one || other) && sold)
      ≡ share price (one && sold) +ℤ share price (other && sold)
share-or price true true sold h = absurd (let e : true ≡ false = h refl in cc)
share-or price true false true h = sym (+ℤ_zero_right price)
share-or price true false false h = sym (+ℤ_zero (pos 0))
share-or price false true true h = sym (+ℤ_zero price)
share-or price false true false h = sym (+ℤ_zero (pos 0))
share-or price false false sold h = sym (+ℤ_zero (pos 0))

revenue_day :
    (db : Database) (d n : ℕ) (rows : List TokenRow)
    → revenue_of db (λ t. redeemed_within d (suc n) t && is_sold t) rows
      ≡ revenue_of db (λ t. redeemed_on d t && is_sold t) rows
        +ℤ revenue_of db (λ t. redeemed_within (d + 1) n t && is_sold t) rows
revenue_day db d n [] = sym (+ℤ_zero (pos 0))
revenue_day db d n (t ∷ rows) =
    let on = redeemed_on d t in
    let later = redeemed_within (d + 1) n t in
    let all_days = λ (u : TokenRow). redeemed_within d (suc n) u && is_sold u in
    let first = λ (u : TokenRow). redeemed_on d u && is_sold u in
    let rest = λ (u : TokenRow). redeemed_within (d + 1) n u && is_sold u in
    revenue-cons db all_days t rows
    ∙ ap (λ b. share (price_at db t) (b && is_sold t) +ℤ revenue_of db all_days rows)
        (first_day d n t)
    ∙ ap (λ r. share (price_at db t) ((on || later) && is_sold t) +ℤ r) (revenue_day db d n rows)
    ∙ ap (λ r. r +ℤ (revenue_of db first rows +ℤ revenue_of db rest rows))
        (share-or (price_at db t) on later (is_sold t) (apart d n t))
    ∙ +ℤ_interchange (share (price_at db t) (first t)) (share (price_at db t) (rest t))
        (revenue_of db first rows) (revenue_of db rest rows)
    ∙ ap (λ r. r +ℤ (share (price_at db t) (rest t) +ℤ revenue_of db rest rows))
        (sym (revenue-cons db first t rows))
    ∙ ap (λ r. revenue_of db first (t ∷ rows) +ℤ r) (sym (revenue-cons db rest t rows))

no_days :
    (db : Database) (d : ℕ) (rows : List TokenRow)
    → (0 ≡ count_where (λ t. redeemed_within d 0 t && is_sold t) rows)
      × (pos 0 ≡ revenue_of db (λ t. redeemed_within d 0 t && is_sold t) rows)
no_days db d [] = (refl, refl)
no_days db d (t ∷ rows) =
    let none_in : redeemed_within d 0 t ≡ false = ground arith in
    rw none_in (omega (arith, (no_days db d rows).0), (no_days db d rows).1)

abbrev pub sum_sold : List DayStats → ℕ
sum_sold [] = 0
sum_sold (day ∷ days) = day.tokens_sold + sum_sold days

abbrev pub sum_revenue : List DayStats → ℤ
sum_revenue [] = pos 0
sum_revenue (day ∷ days) = day.revenue_ariary +ℤ sum_revenue days

week_total :
    (db : Database) (n d : ℕ)
    → (sum_sold (map (day_stats db) (days_from n d))
        ≡ count_where (λ t. redeemed_within d n t && is_sold t) db.tokens)
      × (sum_revenue (map (day_stats db) (days_from n d))
          ≡ revenue_where db (λ t. redeemed_within d n t && is_sold t))
unfolding day_stats revenue_where
week_total db zero d = no_days db d db.tokens
week_total db (suc n) d = (
  omega (arith, (week_total db n (d + 1)).0, count_day d n db.tokens),
  ap (λ r. revenue_of db (λ t. redeemed_on d t && is_sold t) db.tokens +ℤ r)
        (week_total db n (d + 1)).1
      ∙ sym (revenue_day db d n db.tokens),
)

in_week :
    (now : ℕ) (t : TokenRow)
    → 6 ≤ today now
    → is_past_sale now t ≡ true
    → redeemed_within (today now - 6) 7 t ≡ redeemed_from (today now - 6) t
in_week now t h e = ground arith

-- From the seventh day of the epoch on, and where no token is redeemed after the day of the clock
-- reading, the seven rows together count every token once that was sold since the day six days before,
-- and sum up the prices of their plans.
pub get_weekly_stats_total :
    (db : Database) (now : ℕ)
    → 6 ≤ today now
    → all (is_past_sale now) db.tokens ≡ true
    → (sum_sold (get_weekly_stats db now)
        ≡ count_where (λ t. redeemed_from (today now - 6) t && is_sold t) db.tokens)
      × (sum_revenue (get_weekly_stats db now)
          ≡ revenue_where db (λ t. redeemed_from (today now - 6) t && is_sold t))
unfolding get_weekly_stats revenue_where
get_weekly_stats_total db now h past =
    let agree = λ (t : TokenRow) (e : is_past_sale now t ≡ true). in_week now t h e in
    let (sold, revenue) = week_total db 7 (today now - 6) in
    rw (dates_week 0 now h) (
      sold ∙ same_count now _ _ agree db.tokens past,
      revenue
          ∙ ap (λ rows. sum_ariary (join_rows (price_of db) rows))
              (same_rows now _ _ agree db.tokens past),
    )
