-- ===== src/Tests/Network.antt =====
-- Runs of src/net/arp.rs, src/main.rs and the printing of prices.
use didicafe.Base.{
  ℕ, ◌≡◌, ◌≢◌, ◌++◌, refl, true, false, not, some, List, [], ◌∷◌, Str, lit, arith, all, All, Bool,
  ◌&&◌, ◌||◌, eqb, is_whitespace, length,
}
use didicafe.RateLimit.{v4}
use didicafe.Web.Layers.{Service}
use didicafe.Web.Routes.{admin_router}
use didicafe.Arp.{lookup_proc_net_arp}
use didicafe.Arp.Table.{
  Entry, IsField, IsEntry, IsLine, print_table, first_entry, lookup_proc_net_arp-print_table,
}
use didicafe.Portal.Price.{separator, format_ariary, format_ariary_groups}
use didicafe.Start.{
  Listener, portal, admin, listeners, Event, accepted, handshake_done, request, shutdown, serve_tls,
  started, Acceptor, serving, handshaking, handshake_timed_out, task_takes_shutdown, happen,
}
use didicafe.Start.Listeners.{listeners_apart}
use didicafe.Start.Draining.{stopping, drain_stops}
use didicafe.Start.Moves.{is_ended}
use didicafe.Tests.Samples.{sample_config, to_string}
use didicafe.Tests.Settings as Checked
use didicafe.Tests.Web as Web_runs
use didicafe.Tests.Web.{dispatch, from_str}

abbrev same : Str → Str
same s = s

abbrev entry : Entry
entry = record {
  ip = lit "10.10.0.42";
  hw_type = (6, lit "0x1");
  flags = (9, lit "0x2");
  mac = (9, lit "aa:bb:cc:dd:ee:ff");
  others = (5, lit "*") ∷ (8, lit "wlan0") ∷ [];
}

split_true : (a b : Bool) → (a && b) ≡ true → (a ≡ true) × (b ≡ true)
split_true true b h = (refl, h)
split_true false b h = cc

not-true : (b : Bool) → not b ≡ true → b ≡ false
not-true true h = cc
not-true false h = refl

unbroken :
    (s : Str) → all (λ c. not (is_whitespace c)) s ≡ true → All (λ c. is_whitespace c ≡ false) s
unbroken [] h = tt
unbroken (c ∷ s) h =
    let (here, rest) = split_true (not (is_whitespace c)) _ h in
    (not-true (is_whitespace c) here, unbroken s rest)

field : (c : ℕ) (s : Str) → all (λ c. not (is_whitespace c)) (c ∷ s) ≡ true → IsField (c ∷ s)
field c s h = (λ e. cc, unbroken (c ∷ s) h)

no_break : (s : Str) → all (λ c. not (eqb c 0x0A || eqb c 0x0D)) s ≡ true → IsLine s
no_break [] h = tt
no_break (c ∷ s) h =
    let (here, rest) = split_true (not (eqb c 0x0A || eqb c 0x0D)) _ h in
    ((ground arith, ground arith), no_break s rest)

entry-IsEntry : IsEntry entry
entry-IsEntry = (
  field b'1' (lit "0.10.0.42") refl,
  (
    field b'0' (lit "x1") refl,
    (
      field b'0' (lit "x2") refl,
      (
        field b'a' (lit "a:bb:cc:dd:ee:ff") refl,
        (field b'*' [] refl, (field b'w' (lit "lan0") refl, tt)),
      ),
    ),
  ),
)

lookup_proc_net_arp-print_table_example :
    lookup_proc_net_arp same (lit "10.10.0.42") (some (print_table (lit "IP address") (entry ∷ [])))
    ≡ first_entry same (lit "10.10.0.42") (entry ∷ [])
lookup_proc_net_arp-print_table_example =
    lookup_proc_net_arp-print_table same (lit "10.10.0.42") (lit "IP address") (entry ∷ [])
      (no_break (lit "IP address") refl) (entry-IsEntry, tt)

format_ariary_groups_example :
    (format_ariary (lit "10000") ≡ format_ariary (lit "10") ++ separator ∷ lit "000")
    × (format_ariary (lit "000") ≡ lit "000")
    × (format_ariary (lit "00") ≡ lit "00")
    × (format_ariary (lit "0") ≡ lit "0")
    × (format_ariary (lit "-10") ≡ b'-' ∷ format_ariary (lit "10"))
format_ariary_groups_example = format_ariary_groups (lit "10") b'0' b'0' b'0' (λ e. cc) refl refl

-- Numbers printed so that two that differ are printed differently.
abbrev one_code : ℕ → Str
one_code n = n ∷ []

injective : (a b : ℕ) → one_code a ≡ one_code b → a ≡ b
injective a b e = cc

listeners_apart_example :
    (p : Listener) × (a : Listener) × (listeners one_code sample_config ≡ p ∷ a ∷ [])
    × (p.routes ≡ portal)
    × (a.routes ≡ admin)
    × (a.over_tls ≡ true)
    × (p.address ≢ a.address)
listeners_apart_example =
    listeners_apart Checked.parse_ip one_code injective sample_config Checked.accepted refl

-- A client of another network connects, completes the handshake and sends a request.
abbrev foreign : List Event
foreign = accepted (v4 5) ∷ handshake_done 0 ∷ request 0 (lit "/admin") ∷ shutdown ∷ []

abbrev router : Service ℕ
router = admin_router dispatch to_string from_str Web_runs.parse_ip sample_config

-- One task serves and one is in its handshake.
abbrev busy : Acceptor ℕ
busy = record (started 3) {
  tasks =
      record { remote_addr = v4 5; phase = serving }
      ∷ record { remote_addr = v4 6; phase = handshaking }
      ∷ [];
}

-- A third client connects before the loop takes the shutdown.
abbrev meanwhile : List Event
meanwhile = accepted (v4 7) ∷ request 0 (lit "/admin") ∷ []

-- The first connection is asked once more, the second task's handshake times out, and the third's
-- completes.
abbrev draining : List Event
draining =
    request 0 (lit "/admin")
    ∷ handshake_timed_out 1
    ∷ task_takes_shutdown 0
    ∷ handshake_done 2
    ∷ task_takes_shutdown 2
    ∷ []

drain_stops_example :
    ((serve_tls router (stopping router busy meanwhile) draining).listening ≡ false)
    × (length (serve_tls router (stopping router busy meanwhile) draining).tasks
        ≡ length (stopping router busy meanwhile).tasks)
    × (all is_ended (serve_tls router (stopping router busy meanwhile) draining).tasks ≡ true)
    × (serve_tls router (serve_tls router (stopping router busy meanwhile) draining) foreign
        ≡ serve_tls router (stopping router busy meanwhile) draining)
unfolding serve_tls happen
drain_stops_example = drain_stops router busy meanwhile draining foreign refl
