-- ===== src/Tests/Flows.antt =====
-- Runs of src/services/session.rs, over the recording firewall and over one that accepts no client.
use didicafe.Base.{
  ◌≡◌, refl, true, false, some, none, [], ◌∷◌, lit, list_beq, ok, err, all, any, not, ◌&&◌, arith,
}
use didicafe.Base.Int.{pos}
use didicafe.Db.Models.{Session, SessionStatus}
use didicafe.Db.Tables.{session_view}
use didicafe.Db.Sessions as Rows
use didicafe.Db.Sessions.{is_active}
use didicafe.Db.Active.{active_count}
use didicafe.Db.Integrity.{IsSound}
use didicafe.Firewall.{Firewall}
use didicafe.Firewall.Mock.{mock_firewall}
use didicafe.World.{World, database_error, firewall_error, no_active_session, execute, call}
use didicafe.SessionService.{create_session, migrate_session, move_session, tick_sessions, expiry}
use didicafe.SessionService.Create.{failed-tokens, created, is_created, is_redeemed}
use didicafe.SessionService.Migrate.{migrated, stranded, is_moved}
use didicafe.SessionService.Cleanup.{positive_grace, tick_expires, row_due}
use didicafe.Tests.Records.{served, mac, neighbour}
use didicafe.Tests.Samples.{clock_at}

abbrev refusing : Firewall
refusing = record {
  State = Unit {0};
  authorize_client = λ mac ip timeout_secs s. (err (lit "nft failed"), s);
  deauthorize_client = λ mac ip s. (ok tt, s);
  init_ruleset = λ s. (ok tt, s);
}

abbrev world : World mock_firewall
world = record { db = served; firewall = []; io = [] }

-- The second statement fails.
abbrev flaky : World mock_firewall
flaky = record { db = served; firewall = []; io = false ∷ true ∷ [] }

abbrev flaky_after : World mock_firewall
flaky_after =
    (create_session mock_firewall 1 (pos 60) neighbour (lit "10.0.0.9") (clock_at 20_000_000_000)
      flaky).1

flaky_fails :
    create_session mock_firewall 1
      (pos 60)
      neighbour
      (lit "10.0.0.9")
      (clock_at 20_000_000_000)
      flaky
    ≡ (err database_error, flaky_after)
unfolding create_session execute call Rows.create_session list_beq
flaky_fails = refl

failed-tokens_example : flaky_after.db.tokens ≡ served.tokens
failed-tokens_example =
    failed-tokens mock_firewall 1 (pos 60) neighbour (lit "10.0.0.9") (clock_at 20_000_000_000)
      flaky flaky_after database_error flaky_fails

abbrev created_after : World mock_firewall
created_after =
    (create_session mock_firewall 1 (pos 60) neighbour (lit "10.0.0.9") (clock_at 20_000_000_000)
      world).1

creates_two :
    create_session mock_firewall 1
      (pos 60)
      neighbour
      (lit "10.0.0.9")
      (clock_at 20_000_000_000)
      world
    ≡ (ok 2, created_after)
unfolding create_session execute call Rows.create_session list_beq
creates_two = refl

created_example :
    (active_count neighbour created_after.db ≡ 1)
    × (all (is_created 2 1 neighbour (lit "10.0.0.9") 3620) created_after.db.sessions ≡ true)
    × (all (is_redeemed 1 (expiry 20_000_000_000 (pos 60))) created_after.db.tokens ≡ true)
    × (mock_firewall.authorize_client neighbour (lit "10.0.0.9") 3600 []
        ≡ (ok tt, created_after.firewall))
created_example =
    created mock_firewall 1 (pos 60) neighbour (lit "10.0.0.9") (clock_at 20_000_000_000) world
      created_after 2 creates_two

-- What the queries see of the one session.
abbrev old : Session
old = record {
  id = 1;
  token_id = 1;
  mac_address = mac;
  ip_address = lit "10.0.0.2";
  started_at = 10;
  expires_at = 3610;
  status = SessionStatus.active;
  token_code = some (lit "WIFI-ABCD-2323");
  token_name = none;
  plan_name = some (lit "Hour");
}

seen : Rows.get_active_session_by_token served 1 ≡ some old
unfolding Rows.get_active_session_by_token session_view
seen = refl

abbrev migrated_after : World mock_firewall
migrated_after =
    (migrate_session mock_firewall 1 neighbour (lit "10.0.0.9") (clock_at 20_000_000_000) world).1

migrates :
    migrate_session mock_firewall 1 neighbour (lit "10.0.0.9") (clock_at 20_000_000_000) world
    ≡ (ok 2, migrated_after)
unfolding migrate_session move_session execute call Rows.create_session Rows.disconnect_session
    Rows.get_active_session_by_token session_view list_beq
migrates = refl

migrated_example :
    (migrated_after.db.tokens ≡ served.tokens)
    × (active_count neighbour migrated_after.db ≡ 1)
    × (any (is_moved 2 neighbour 3610) migrated_after.db.sessions ≡ true)
migrated_example =
    migrated mock_firewall 1 neighbour (lit "10.0.0.9") (clock_at 20_000_000_000) world
      migrated_after old 2 seen migrates

abbrev closed_world : World refusing
closed_world = record { db = served; firewall = tt; io = [] }

abbrev stranded_after : World refusing
stranded_after =
    (migrate_session refusing 1 neighbour (lit "10.0.0.9") (clock_at 20_000_000_000) closed_world).1

refuses :
    migrate_session refusing 1 neighbour (lit "10.0.0.9") (clock_at 20_000_000_000) closed_world
    ≡ (err (firewall_error (lit "nft failed")), stranded_after)
unfolding migrate_session move_session execute call Rows.disconnect_session
    Rows.get_active_session_by_token session_view
refuses = refl

nothing_fails : stranded_after.io ≡ []
unfolding migrate_session move_session execute call Rows.get_active_session_by_token session_view
nothing_fails = refl

stranded_example :
    (migrate_session refusing 1 mac (lit "10.0.0.2") (clock_at 30_000_000_000) stranded_after
      ≡ (err (no_active_session 1), stranded_after))
    × (stranded_after.db.tokens ≡ served.tokens)
stranded_example =
    stranded refusing 1 neighbour (lit "10.0.0.9") (clock_at 20_000_000_000) closed_world
      stranded_after old (lit "nft failed") mac (lit "10.0.0.2") (clock_at 30_000_000_000) seen refl
      refuses nothing_fails

positive_grace_example :
    ((tick_sessions mock_firewall (pos 10) 9_000_000_000_000 world).db ≡ served)
    × ((tick_sessions mock_firewall (pos 10) 9_000_000_000_000 world).firewall ≡ [])
positive_grace_example = positive_grace mock_firewall 9 9_000_000_000_000 world

served-IsSound : IsSound served
served-IsSound = record {
  session_tokens = (refl, tt);
  token_plans = (refl, tt);
  sessions_below = (omega arith, tt);
  tokens_below = (omega arith, tt);
}

tick_expires_example :
    all
      (λ s. not (is_active s && row_due (pos 0) 9_000_000_000_000 s))
      (tick_sessions mock_firewall (pos 0) 9_000_000_000_000 world).db.sessions
    ≡ true
tick_expires_example =
    tick_expires mock_firewall (λ mac ip s. refl) (pos 0) 9_000_000_000_000 world refl
      served-IsSound
