-- ===== src/Db/Audit.antt =====
-- src/db/mod.rs: the audit log. A clock reading is in nanoseconds.
use didicafe.Base.{
  ℕ, ◌+◌, ◌-◌, ◌*◌, Bool, not, Option, List, [], ◌∷◌, ◌++◌, ltb, leb, if◌then◌else◌, Str, retain,
  take, drop, length,
}
use didicafe.Db.Models.{AuditLogEntry, seconds}
use didicafe.Db.Tables.{Database, count_where}

unfoldable pub audit_log : Database → Str → Str → Option Str → Option ℕ → Option Str → ℕ → Database
audit_log db admin_user action target_type target_id detail now = record db {
  audit =
      db.audit
      ++ record {
        id = db.next_audit;
        timestamp = seconds now;
        admin_user = admin_user;
        action = action;
        target_type = target_type;
        target_id = target_id;
        detail = detail;
      }
        ∷ [];
  next_audit = db.next_audit + 1;
}

-- `ORDER BY timestamp DESC`
-- `ORDER BY timestamp DESC`; of two entries of one second SQLite may list either first, and the model
-- lists the later one.
unfoldable pub insert_latest : AuditLogEntry → List AuditLogEntry → List AuditLogEntry
insert_latest e [] = e ∷ []
insert_latest e (f ∷ log) =
    if leb f.timestamp e.timestamp then e ∷ f ∷ log else f ∷ insert_latest e log

unfoldable pub latest_first : List AuditLogEntry → List AuditLogEntry
latest_first [] = []
latest_first (e ∷ log) = insert_latest e (latest_first log)

unfoldable pub get_audit_log : Database → ℕ → List AuditLogEntry
get_audit_log db limit = take limit (latest_first db.audit)

unfoldable pub get_audit_log_paged : Database → ℕ → ℕ → List AuditLogEntry × ℕ
get_audit_log_paged db page per_page =
    (take per_page (drop ((page - 1) * per_page) (latest_first db.audit)), length db.audit)

-- `timestamp < datetime('now', '-N days')`
abbrev pub is_old : ℕ → ℕ → AuditLogEntry → Bool
is_old retention_days now e = ltb (e.timestamp + retention_days * 86400) (seconds now)

unfoldable pub purge_audit_log : Database → ℕ → ℕ → ℕ × Database
purge_audit_log db retention_days now = (
  count_where (is_old retention_days now) db.audit,
  record db { audit = retain (λ e. not (is_old retention_days now e)) db.audit },
)
