-- ===== src/Db/Stats/Purge.antt =====
-- src/db/mod.rs: what the hourly purge takes from the statistics.
use didicafe.Base.{
  ℕ, zero, suc, ◌+◌, ◌-◌, ◌≤◌, ◌≡◌, refl, Bool, true, false, not, ◌&&◌, Option, none, some, List,
  [], ◌∷◌, leb, eqb, retain, any, map, all, arith, leb→le, ◌||◌, Bool-cases, inl, inr,
}
use didicafe.Db.Tables.{Database, TokenRow, SessionRow, count_where, join_rows}
use didicafe.Db.Models.{TokenStatus}
use didicafe.Db.Tokens.{has_status}
use didicafe.Db.Sessions.{is_live, is_purgeable, is_orphan, purge_expired_sessions}
use didicafe.Db.Stats.{
  date_of, today, is_sold, redeemed_from, redeemed_on, revenue_where, dates, day_stats, price_of,
  sum_ariary, get_daily_stats, get_weekly_stats,
}

-- A token that is past its use and was redeemed from this day on has a session, which started at most
-- a day before it was redeemed. A creation inserts the session before it redeems the token.
abbrev pub is_backed : ℕ → List SessionRow → TokenRow → Bool
is_backed day sessions t =
    not (redeemed_from day t)
    || (not (has_status TokenStatus.expired t || has_status TokenStatus.revoked t)
        || elim t.redeemed_at [
          | none ↦ true
          | some r ↦ any (λ s. eqb s.token_id t.id && leb r (s.started_at + 86400)) sessions
        ])

module _ (retention_days now : ℕ) (long : 8 ≤ retention_days) where
  abbrev kept : List SessionRow → List SessionRow
  kept = retain (λ s. not (is_purgeable retention_days now s))

  session_kept :
      (id r : ℕ) (sessions : List SessionRow)
      → today now - 6 ≤ date_of r
      → any (λ s. eqb s.token_id id && leb r (s.started_at + 86400)) sessions ≡ true
      → any (λ s. eqb s.token_id id) (kept sessions) ≡ true
  session_kept id r [] late h = h
  session_kept id r (s ∷ sessions) late h = ground (arith, session_kept id r sessions)

  partner_kept :
      (id : ℕ) (sessions : List SessionRow) (redeemed_at : Option ℕ)
      → (elim redeemed_at [
        | none ↦ true
        | some r ↦ any (λ s. eqb s.token_id id && leb r (s.started_at + 86400)) sessions
      ])
        ≡ true
      → (elim redeemed_at [ none ↦ false | some r ↦ leb (today now - 6) (date_of r) ]) ≡ true
      → any (λ s. eqb s.token_id id) (kept sessions) ≡ true
  partner_kept id sessions none backed late = cc
  partner_kept id sessions (some r) backed late =
      session_kept id r sessions (leb→le _ _ late) backed

  token_kept :
      (sessions : List SessionRow) (t : TokenRow)
      → is_backed (today now - 6) sessions t ≡ true
      → redeemed_from (today now - 6) t ≡ true
      → is_orphan (kept sessions) t ≡ false
  token_kept sessions t backed late =
      elim (Bool-cases (has_status TokenStatus.expired t || has_status TokenStatus.revoked t)) [
        | inl gone ↦
            rw (partner_kept t.id sessions t.redeemed_at (rw (late, gone) at backed) late)
              (ground arith)
        | inr used ↦ rw used refl
      ]

  module _ (sessions : List SessionRow) (p : TokenRow → Bool)
      (within : (t : TokenRow) → p t ≡ true → redeemed_from (today now - 6) t ≡ true) where
    rows_kept :
        (rows : List TokenRow)
        → all (is_backed (today now - 6) sessions) rows ≡ true
        → retain (λ t. p t && is_sold t) (retain (λ t. not (is_orphan (kept sessions) t)) rows)
          ≡ retain (λ t. p t && is_sold t) rows
    rows_kept [] h = refl
    rows_kept (t ∷ rows) h = ground (arith, within t, token_kept sessions t, rows_kept rows)

    count_kept :
        (rows : List TokenRow)
        → all (is_backed (today now - 6) sessions) rows ≡ true
        → count_where (λ t. p t && is_sold t) (retain (λ t. not (is_orphan (kept sessions) t)) rows)
          ≡ count_where (λ t. p t && is_sold t) rows
    count_kept [] h = refl
    count_kept (t ∷ rows) h = ground (arith, within t, token_kept sessions t, count_kept rows)

  module _ (db : Database)
      (backed : all (is_backed (today now - 6) db.sessions) db.tokens ≡ true) where
    abbrev purged : Database
    purged = (purge_expired_sessions db retention_days now).1

    day_kept : (day : ℕ) → today now - 6 ≤ day → day_stats purged day ≡ day_stats db day
    unfolding purge_expired_sessions day_stats revenue_where
    day_kept day h =
        let within = λ (t : TokenRow) (e : redeemed_on day t ≡ true).
          let e' : redeemed_from (today now - 6) t ≡ true = ground arith in e' in
        λ i. record {
          date = day;
          tokens_sold = count_kept db.sessions (redeemed_on day) within db.tokens backed i;
          revenue_ariary = sum_ariary (
              join_rows (price_of db)
                (rows_kept db.sessions (redeemed_on day) within db.tokens backed i));
        }

    dates_kept :
        (fuel day last : ℕ)
        → today now - 6 ≤ day
        → map (day_stats purged) (dates fuel day last) ≡ map (day_stats db) (dates fuel day last)
    unfolding dates
    dates_kept zero day last h = refl
    dates_kept (suc fuel) day last h =
        ground (arith, day_kept day h, dates_kept fuel (day + 1) last)

    live_kept :
        (sessions : List SessionRow)
        → count_where (is_live now) (kept sessions) ≡ count_where (is_live now) sessions
    live_kept [] = refl
    live_kept (s ∷ sessions) = ground (arith, live_kept sessions)

    -- A purge that keeps sessions for eight days or more changes neither the weekly nor the daily
    -- statistics of its moment, where every expired or revoked token that was redeemed in the last seven
    -- days has a session that started at most a day before the token was redeemed.
    pub purge-stats :
        (get_weekly_stats (purge_expired_sessions db retention_days now).1 now
          ≡ get_weekly_stats db now)
        × (get_daily_stats (purge_expired_sessions db retention_days now).1 now
            ≡ get_daily_stats db now)
    unfolding get_weekly_stats get_daily_stats purge_expired_sessions revenue_where
    purge-stats =
        let from = redeemed_from (today now) in
        let within = λ (t : TokenRow) (e : from t ≡ true).
          let e' : redeemed_from (today now - 6) t ≡ true = ground arith in e' in
        (
          dates_kept 7 (today now - 6) (today now) (omega arith),
          λ i. record {
            tokens_sold = count_kept db.sessions from within db.tokens backed i;
            active_sessions = live_kept db.sessions i;
            revenue_ariary =
                sum_ariary
                  (join_rows (price_of db) (rows_kept db.sessions from within db.tokens backed i));
          },
        )
