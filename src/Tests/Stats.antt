-- ===== src/Tests/Stats.antt =====
-- Runs of the statistics and of the pages over a database with one code that is in use.
use didicafe.Base.{
  ℕ, ◌≡◌, ◌++◌, refl, true, ◌&&◌, some, none, [], ◌∷◌, lit, ok, arith, map, list_beq, Option,
  Result,
}
use didicafe.Base.Int.{ℤ, pos, ◌+ℤ◌}
use didicafe.Db.Models.{Plan, TokenStatus, SessionStatus}
use didicafe.Db.Tables.{Database, TokenRow, count_where}
use didicafe.Db.Sessions as Rows
use didicafe.Db.Sessions.{purge_expired_sessions}
use didicafe.Db.Stats.{
  is_sold, redeemed_from, revenue_where, dates, day_stats, get_daily_stats, get_weekly_stats,
}
use didicafe.Db.Stats.Week.{
  days_from, dates_enough, sum_sold, sum_revenue, get_weekly_stats-get_daily_stats,
  get_weekly_stats_total,
}
use didicafe.Db.Stats.Purge.{purge-stats}
use didicafe.Firewall.Mock.{mock_firewall}
use didicafe.World.{World, execute, call}
use didicafe.SessionService.{create_session}
use didicafe.Settings.{apply_settings}
use didicafe.Portal.Pages.{shown, success_page}
use didicafe.Portal.Pages.Success.{create-success_page}
use didicafe.Pages.{manage_page, ManageTemplate}
use didicafe.Web.{AppError}
use didicafe.Tests.Records.{served, mac, neighbour}
use didicafe.Tests.Samples.{sample_config, to_string, clock_at}

abbrev sold_token : TokenRow
sold_token = record {
  id = 1;
  code = lit "WIFI-ABCD-2323";
  name = none;
  plan_id = 1;
  status = TokenStatus.active;
  created_at = 0;
  redeemed_at = some 604_810;
  expires_at = some 608_410;
}

abbrev hour : Plan
hour = record {
  id = 1;
  name = lit "Hour";
  duration_minutes = pos 60;
  price_ariary = pos 1000;
  active = true;
  created_at = 0;
}

-- The code was redeemed on the eighth day.
abbrev sold : Database
sold = record served {
  tokens = sold_token ∷ [];
  sessions =
      record {
        id = 1;
        token_id = 1;
        mac_address = mac;
        ip_address = lit "10.0.0.2";
        started_at = 604_810;
        expires_at = 608_410;
        status = SessionStatus.active;
      }
      ∷ [];
}

abbrev noon : ℕ
noon = 605_000_000_000_000

get_weekly_stats-get_daily_stats_example :
    get_weekly_stats sold noon
    ≡ map (day_stats sold) (days_from 6 1)
      ++ record {
        date = 7;
        tokens_sold = (get_daily_stats sold noon).tokens_sold;
        revenue_ariary = (get_daily_stats sold noon).revenue_ariary;
      }
        ∷ []
get_weekly_stats-get_daily_stats_example =
    get_weekly_stats-get_daily_stats sold noon (omega arith) refl

get_weekly_stats_total_example :
    (sum_sold (get_weekly_stats sold noon)
      ≡ count_where (λ t. redeemed_from 1 t && is_sold t) sold.tokens)
    × (sum_revenue (get_weekly_stats sold noon)
        ≡ revenue_where sold (λ t. redeemed_from 1 t && is_sold t))
get_weekly_stats_total_example = get_weekly_stats_total sold noon (omega arith) refl

dates_enough_example : dates 9 1 7 ≡ days_from 6 1 ++ 7 ∷ []
dates_enough_example = dates_enough 2 noon (omega arith)

-- The figures themselves.
sold_today : (get_daily_stats sold noon).revenue_ariary ≡ pos 1000
unfolding get_daily_stats revenue_where ◌+ℤ◌
sold_today = refl

-- The code is expired since, and its session closed.
abbrev used : Database
used = record sold {
  tokens = record sold_token { status = TokenStatus.expired } ∷ [];
  sessions =
      record {
        id = 1;
        token_id = 1;
        mac_address = mac;
        ip_address = lit "10.0.0.2";
        started_at = 604_810;
        expires_at = 608_410;
        status = SessionStatus.expired;
      }
      ∷ [];
}

purge-stats_example :
    (get_weekly_stats (purge_expired_sessions used 8 noon).1 noon ≡ get_weekly_stats used noon)
    × (get_daily_stats (purge_expired_sessions used 8 noon).1 noon ≡ get_daily_stats used noon)
purge-stats_example = purge-stats 8 noon (omega arith) used refl

abbrev world : World mock_firewall
world = record { db = sold; firewall = []; io = [] }

abbrev after : World mock_firewall
after = (create_session mock_firewall 1 (pos 60) neighbour (lit "10.0.0.9") (clock_at noon) world).1

creates :
    create_session mock_firewall 1 (pos 60) neighbour (lit "10.0.0.9") (clock_at noon) world
    ≡ (ok 2, after)
unfolding create_session execute call Rows.create_session list_beq
creates = refl

still_quiet : after.io ≡ []
unfolding create_session execute call Rows.create_session list_beq
still_quiet = refl

create-success_page_example :
    (success_page mock_firewall sample_config neighbour 606_000_000_000_000 after).0
    ≡ ok (
        shown (record {
          remaining_seconds = 2600;
          total_seconds = 3599;
          plan_name = lit "Hour";
          cafe_name = (apply_settings sample_config.portal after.db.settings).cafe_name;
        }))
create-success_page_example =
    create-success_page mock_firewall sample_config 1 60 neighbour (lit "10.0.0.9") (clock_at noon)
      world after 2 sold_token hour (omega arith) 606_000_000_000_000 creates refl refl refl
      still_quiet (omega arith)

abbrev asked : Option ℤ → Result AppError ManageTemplate
asked requested =
    (manage_page mock_firewall sample_config to_string (lit "c1")
      (record { token_status = some (lit "current"); token_page = requested }) noon world).0
