-- ===== src/Tests/Stores.antt =====
-- Runs of src/services/csrf.rs and src/services/admin_session.rs.
use didicafe.Base.{
  ℕ, ◌≡◌, ◌*◌, refl, false, some, [], ◌∷◌, ◌==◌, Str, lit, str_eq, list_beq, to_lowercase,
}
use didicafe.Base.Map
use didicafe.Csrf as Csrf
use didicafe.Csrf.{csrf_token_ttl}
use didicafe.Csrf.Replay as Replay
use didicafe.Csrf.Replay.{replay_refused, generates, validates}
use didicafe.AdminSession as Admin

abbrev mac : Str
mac = lit "aa:bb:cc:dd:ee:01"

abbrev capital : Str
capital = lit "AA:bb:cc:dd:ee:01"

abbrev neighbour : Str
neighbour = lit "aa:bb:cc:dd:ee:02"

abbrev token : Str
token = lit "tok1"

abbrev second : ℕ
second = 1_000_000_000

abbrev portal : Csrf.PortalCsrfStore
portal = record { tokens = (mac, record { token = token; created_at = 0 }) ∷ [] }

found :
    Map.get (to_lowercase mac) (Csrf.get_or_generate portal mac second (lit "tok3")).1.tokens
    ≡ some (record { token = token; created_at = 0 })
unfolding Csrf.get_or_generate Map.get list_beq
found = refl

apart : (to_lowercase neighbour == to_lowercase mac) ≡ false
unfolding list_beq
apart = refl

replay_refused_example :
    (Csrf.validate
      (Replay.run
        (Csrf.validate portal mac token second).1
        ((generates neighbour (lit "tok5"), 2 * second) ∷ []))
      mac
      token
      3_000_000_000).0
    ≡ false
unfolding Map.get
replay_refused_example =
    replay_refused portal mac token token second 3_000_000_000
      ((generates neighbour (lit "tok5"), 2 * second) ∷ []) (refl, tt) (apart, tt)

abbrev admins : Admin.AdminSessionStore
admins = record { sessions = []; timeout = 60_000_000_000 }

apart_ids : (lit "sess2" == lit "sess1") ≡ false
unfolding list_beq
apart_ids = refl

abbrev logged_in : Admin.AdminSessionStore
logged_in = record {
  sessions = (lit "sess1", record { expires_at = 60_000_000_000; csrf_token = lit "form1" }) ∷ [];
  timeout = 60_000_000_000;
}
