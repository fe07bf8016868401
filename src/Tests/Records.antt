-- ===== src/Tests/Records.antt =====
-- Runs of src/db.
use didicafe.Base.{
  ltb, ◌%◌, ◌+◌, ℕ, ◌≡◌, ◌≢◌, ◌≤◌, refl, true, some, none, List, [], ◌∷◌, Str, lit, list_beq, ok,
  arith, str_eq,
}
use didicafe.Base.Int.{pos}
use didicafe.Db.Models.{TokenStatus, SessionStatus}
use didicafe.Db.Tables.{Database, empty}
use didicafe.Db.Sessions.{create_session}
use didicafe.Db.Statements.{
  Statement, creates_plan, creates_token, creates_session, expires_session, purges_sessions,
  history, after_insert,
}
use didicafe.Db.Active.{active_count, reachable-IsOneActive}
use didicafe.Db.Integrity.{IsSound}
use didicafe.Db.Integrity.Reachable.{reachable-IsSound}

abbrev pub mac : Str
mac = lit "aa:bb:cc:dd:ee:01"

abbrev pub neighbour : Str
neighbour = lit "aa:bb:cc:dd:ee:02"

-- A plan, a code that is redeemed, and a session under it.
abbrev pub served : Database
served = record empty {
  plans =
      record {
        id = 1;
        name = lit "Hour";
        duration_minutes = pos 60;
        price_ariary = pos 1000;
        active = true;
        created_at = 0;
      }
      ∷ [];
  tokens =
      record {
        id = 1;
        code = lit "WIFI-ABCD-2323";
        name = none;
        plan_id = 1;
        status = TokenStatus.active;
        created_at = 0;
        redeemed_at = some 10;
        expires_at = some 3610;
      }
      ∷ [];
  sessions =
      record {
        id = 1;
        token_id = 1;
        mac_address = mac;
        ip_address = lit "10.0.0.2";
        started_at = 10;
        expires_at = 3610;
        status = SessionStatus.active;
      }
      ∷ [];
  next_plan = 2;
  next_token = 2;
  next_session = 2;
  ties = λ offset t u. ltb (t.id % (offset + 2)) (u.id % (offset + 2));
}

abbrev again : Database
again = after_insert served (create_session served 1 mac (lit "10.0.0.3") 7210 20_000_000_000)

created : create_session served 1 mac (lit "10.0.0.3") 7210 20_000_000_000 ≡ ok (2, again)
unfolding create_session
created = refl

apart : mac ≢ neighbour
unfolding list_beq
apart e = ground (arith, str_eq.equal_iff mac neighbour)

abbrev statements : List (Statement × ℕ)
statements =
    (creates_plan (lit "Hour") (pos 60) (pos 1000), 0)
    ∷ (creates_token (lit "WIFI-ABCD-2323") none 1, 0)
    ∷ (creates_session 1 mac (lit "10.0.0.2") 3610, 10_000_000_000)
    ∷ (creates_session 1 mac (lit "10.0.0.3") 3620, 20_000_000_000)
    ∷ (expires_session 1, 30_000_000_000)
    ∷ (purges_sessions 0, 40_000_000_000)
    ∷ []

reachable-IsOneActive_example : active_count mac (history empty statements) ≤ 1
reachable-IsOneActive_example = reachable-IsOneActive statements mac

reachable-IsSound_example : IsSound (history empty statements)
reachable-IsSound_example = reachable-IsSound statements
