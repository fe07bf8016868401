-- ===== src/Start.antt =====
-- src/main.rs: the listeners of a start and the loop that accepts connections to the administration
-- over TLS. The restoration of the sessions is in SessionService. Reading PEM files, building the
-- TLS configuration and printing a number are parameters; a reader that answers none has failed.
pub mod Listeners
pub mod Accepting
pub mod Moves
pub mod Phases
pub mod Draining
use didicafe.Base.{
  ℕ, zero, suc, Bool, true, false, not, ◌&&◌, Option, none, some, List, [], ◌∷◌, ◌++◌,
  if◌then◌else◌, Str, lit, is_empty, get_elem?, Result, ok, err,
}
use didicafe.RateLimit.{IpAddr}
use didicafe.Config.{Config, TlsConfig}
use didicafe.Web.{Response}
use didicafe.Web.Layers.{Service}

-- Which of the three routers a listener serves.
pub data Routes : Type 0 where
  portal admin combined : Routes

pub record Listener : Type 0 where
  pub address : Str
  pub over_tls : Bool
  pub routes : Routes

module _ (to_string : ℕ → Str) where
  -- `format!("{}:{}", …)`
  abbrev pub address_of : Str → ℕ → Str
  address_of listen port = listen ++ (b':' ∷ to_string port)

  -- The listeners in the order in which they are bound.
  unfoldable pub listeners : Config → List Listener
  listeners config =
      let http_addr = address_of config.server.listen config.server.port in
      if config.tls.enabled
      then record { address = http_addr; over_tls = false; routes = portal }
        ∷ record {
          address = address_of config.server.listen config.tls.admin_port;
          over_tls = true;
          routes = admin;
        }
        ∷ []
      else record { address = http_addr; over_tls = false; routes = combined } ∷ []

-- What the libraries make of the two files: the certificates of one, each parsed or not, the key of
-- the other, and the server's configuration.
pub record TlsFiles : Type 1 where
  pub Cert : Type 0
  pub Key : Type 0
  pub Acceptor : Type 0
  pub pem_file_iter : Str → Option (List (Option Cert))
  pub from_pem_file : Str → Option Key
  pub with_single_cert : List Cert → Key → Option Acceptor

-- `with_context(…)?`
abbrev pub or_context : {A : Type 0} → Option A → Str → Result Str A
or_context none message = err message
or_context (some a) message = ok a

-- `.collect::<Result<_, _>>()`
abbrev pub collect : {A : Type 0} → List (Option A) → Option (List A)
collect [] = some []
collect (none ∷ xs) = none
collect (some x ∷ xs) = elim (collect xs) [ none ↦ none | some rest ↦ some (x ∷ rest) ]

module _ (files : TlsFiles) where
  abbrev pub with_key : TlsConfig → List files.Cert → Option files.Key → Result Str files.Acceptor
  with_key tls cert_chain none = err (lit "failed to parse TLS key: " ++ tls.key_path)
  with_key tls cert_chain (some key) =
      or_context (files.with_single_cert cert_chain key) (lit "failed to build TLS server config")

  abbrev pub with_chain : TlsConfig → Option (List files.Cert) → Result Str files.Acceptor
  with_chain tls none = err (lit "failed to parse TLS cert: " ++ tls.cert_path)
  with_chain tls (some cert_chain) =
      if not (is_empty cert_chain)
      then with_key tls cert_chain (files.from_pem_file tls.key_path)
      else err (lit "TLS cert file contains no certificates")

  abbrev pub with_file : TlsConfig → Option (List (Option files.Cert)) → Result Str files.Acceptor
  with_file tls none = err (lit "failed to open TLS cert: " ++ tls.cert_path)
  with_file tls (some certs) = with_chain tls (collect certs)

  unfoldable pub build_tls_acceptor : TlsConfig → Result Str files.Acceptor
  build_tls_acceptor tls = with_file tls (files.pem_file_iter tls.cert_path)

-- A task that `serve_tls` has spawned for a connection: in the TLS handshake, serving, or ended.
pub data Phase : Type 0 where
  handshaking serving ended : Phase

pub record Task : Type 0 where
  pub remote_addr : IpAddr
  pub phase : Phase

-- The loop, its tasks, the cancellation, and the state and the answers of the router.
pub record Acceptor (S : Type 0) : Type 0 where
  pub listening : Bool
  pub cancelled : Bool
  pub tasks : List Task
  pub state : S
  pub answers : List Response

-- What may happen next, in any order: the listener gives a connection or an error; the shutdown is
-- signalled, the loop takes it; a task's handshake ends well, or badly or by its timeout; a request
-- arrives on a connection; a connection ends; a task takes the shutdown.
pub data Event : Type 0 where
  accepted : IpAddr → Event
  accept_error shutdown loop_takes_shutdown : Event
  handshake_done handshake_failed handshake_timed_out : ℕ → Event
  request : ℕ → Str → Event
  connection_ends task_takes_shutdown : ℕ → Event

abbrev pub set_phase : ℕ → Phase → List Task → List Task
set_phase i phase [] = []
set_phase zero phase (t ∷ tasks) = record t { phase = phase } ∷ tasks
set_phase (suc i) phase (t ∷ tasks) = t ∷ set_phase i phase tasks

abbrev pub phase_beq : Phase → Phase → Bool
phase_beq handshaking handshaking = true
phase_beq serving serving = true
phase_beq ended ended = true
phase_beq _ _ = false

abbrev pub in_phase : Phase → Option Task → Bool
in_phase phase none = false
in_phase phase (some t) = phase_beq t.phase phase

module _ {S : Type 0} where
  -- The phase of a task changes where it is the one expected.
  unfoldable pub move : ℕ → Phase → Phase → Acceptor S → Acceptor S
  move i from to a =
      if in_phase from (get_elem? a.tasks i) then record a { tasks = set_phase i to a.tasks } else a

  -- The router gets the request with the address of the connection in it.
  abbrev pub answered : Acceptor S → Response × S → Acceptor S
  answered a (response, s) = record a { state = s; answers = a.answers ++ response ∷ [] }

  abbrev pub serve_on : Service S → Option Task → Str → Acceptor S → Acceptor S
  serve_on app none path a = a
  serve_on app (some t) path a =
      if phase_beq t.phase serving
      then answered a (app (record { path = path; peer = t.remote_addr }) a.state)
      else a

  unfoldable pub happen : Service S → Acceptor S → Event → Acceptor S
  happen app a (accepted remote_addr) =
      if a.listening
      then record a {
        tasks = a.tasks ++ record { remote_addr = remote_addr; phase = handshaking } ∷ [];
      }
      else a
  happen app a accept_error = a
  happen app a shutdown = record a { cancelled = true }
  happen app a loop_takes_shutdown = if a.cancelled then record a { listening = false } else a
  happen app a (handshake_done i) = move i handshaking serving a
  happen app a (handshake_failed i) = move i handshaking ended a
  happen app a (handshake_timed_out i) = move i handshaking ended a
  happen app a (request i path) = serve_on app (get_elem? a.tasks i) path a
  happen app a (connection_ends i) = move i serving ended a
  happen app a (task_takes_shutdown i) = if a.cancelled then move i serving ended a else a

  unfoldable pub serve_tls : Service S → Acceptor S → List Event → Acceptor S
  serve_tls app a [] = a
  serve_tls app a (event ∷ events) = serve_tls app (happen app a event) events

-- Before the first connection.
abbrev pub started : {S : Type 0} → S → Acceptor S
started s = record { listening = true; cancelled = false; tasks = []; state = s; answers = [] }
