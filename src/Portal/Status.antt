-- ===== src/Portal/Status.antt =====
-- src/web/portal.rs: the two ways in which a client learns of its session.
use didicafe.Base.{ℕ, ◌≡◌, ltb, Str, arith}
use didicafe.Db.Tables.{Database}
use didicafe.Portal.{portal_status, status_page}

-- The JSON status and the status page never disagree: on whether the client is connected, on the time
-- that is left, and both show time left exactly when they show a connection.
pub portal_status-status_page :
    (db : Database) (mac : Str) (now : ℕ)
    → ((portal_status db mac now).connected ≡ (status_page db mac now).connected)
      × ((portal_status db mac now).remaining_seconds ≡ (status_page db mac now).remaining_seconds)
      × ((portal_status db mac now).connected ≡ ltb 0 (status_page db mac now).remaining_seconds)
unfolding portal_status status_page
portal_status-status_page db mac now = ground (arith)
