-- ===== src/Start/Draining.antt =====
-- src/main.rs: the shutdown of the listener of the administration.
use didicafe.Base.{
  ℕ, ◌≡◌, refl, ap, sym, ◌∙◌, true, false, Option, none, some, List, [], ◌∷◌, if◌then◌else◌,
  get_elem?, length, Bool-cases, inl, inr, all, Str,
}
use didicafe.Web.Layers.{Service}
use didicafe.Start.{
  Event, accepted, accept_error, shutdown, loop_takes_shutdown, handshake_done, handshake_failed,
  handshake_timed_out, request, connection_ends, task_takes_shutdown, Phase, handshaking, serving,
  ended, Task, Acceptor, in_phase, phase_beq, move, serve_on, happen, serve_tls,
}
use didicafe.Start.Phases.{all_quit, effects, length-effects, all_quit-ended}
use didicafe.Start.Moves.{is_ended, moved, effect, idle}

module _ {S : Type 0} (app : Service S) where
  move-moved :
      (i : ℕ) (from to : Phase) (a : Acceptor S)
      → move i from to a ≡ record a { tasks = moved i from to a.tasks }
  unfolding move
  move-moved i from to a = elim (Bool-cases (in_phase from (get_elem? a.tasks i))) [
    | inl is_in ↦ rw is_in refl
    | inr is_out ↦ rw is_out refl
  ]

  takes_effect :
      (i : ℕ) (a : Acceptor S)
      → a.cancelled ≡ true
      → happen app a (task_takes_shutdown i) ≡ record a { tasks = moved i serving ended a.tasks }
  unfolding happen
  takes_effect i a h =
      ap (λ b. if b then move i serving ended a else a) h ∙ move-moved i serving ended a

  abbrev IsClosed : Acceptor S → Type 0
  IsClosed a = (a.listening ≡ false) × (a.cancelled ≡ true)

  -- Once it no longer accepts, an event moves its tasks, whatever is asked and answered on the way.
  happen-effect :
      (a : Acceptor S) (event : Event)
      → IsClosed a
      → ((happen app a event).tasks ≡ effect event a.tasks) × IsClosed (happen app a event)
  unfolding happen
  happen-effect a (accepted ip) h = rw (h.0) (refl, (refl, h.1))
  happen-effect a accept_error h = (refl, h)
  happen-effect a shutdown h = (refl, (h.0, refl))
  happen-effect a loop_takes_shutdown h = rw (h.1) (refl, (refl, refl))
  happen-effect a (handshake_done i) h = rw (move-moved i handshaking serving a) (refl, h)
  happen-effect a (handshake_failed i) h = rw (move-moved i handshaking ended a) (refl, h)
  happen-effect a (handshake_timed_out i) h = rw (move-moved i handshaking ended a) (refl, h)
  happen-effect a (request i path) h = asked (get_elem? a.tasks i)
    where
      asked :
          (o : Option Task)
          → ((serve_on app o path a).tasks ≡ a.tasks) × IsClosed (serve_on app o path a)
      asked none = (refl, h)
      asked (some t) = elim (Bool-cases (phase_beq t.phase serving)) [
        | inl serves ↦ rw serves (refl, h)
        | inr idles ↦ rw idles (refl, h)
      ]
  happen-effect a (connection_ends i) h = rw (move-moved i serving ended a) (refl, h)
  happen-effect a (task_takes_shutdown i) h = rw (takes_effect i a h.1) (refl, h)

  serve_tls-effects :
      (a : Acceptor S) (events : List Event)
      → IsClosed a
      → ((serve_tls app a events).tasks ≡ effects events a.tasks)
        × IsClosed (serve_tls app a events)
  unfolding serve_tls
  serve_tls-effects a [] h = (refl, h)
  serve_tls-effects a (event ∷ events) h =
      let (step, closed) = happen-effect a event h in
      let (steps, still_closed) = serve_tls-effects (happen app a event) events closed in
      (steps ∙ ap (effects events) step, still_closed)

  -- No event takes the shutdown back.
  happen-cancelled :
      (a : Acceptor S) (event : Event) → a.cancelled ≡ true → (happen app a event).cancelled ≡ true
  unfolding happen
  happen-cancelled a (accepted ip) h = elim (Bool-cases a.listening) [
    | inl listens ↦ rw listens h
    | inr deaf ↦ rw deaf h
  ]
  happen-cancelled a accept_error h = h
  happen-cancelled a shutdown h = refl
  happen-cancelled a loop_takes_shutdown h = rw h refl
  happen-cancelled a (handshake_done i) h = rw (move-moved i handshaking serving a) h
  happen-cancelled a (handshake_failed i) h = rw (move-moved i handshaking ended a) h
  happen-cancelled a (handshake_timed_out i) h = rw (move-moved i handshaking ended a) h
  happen-cancelled a (request i path) h = asked (get_elem? a.tasks i)
    where
      asked : (o : Option Task) → (serve_on app o path a).cancelled ≡ true
      asked none = h
      asked (some t) = elim (Bool-cases (phase_beq t.phase serving)) [
        | inl serves ↦ rw serves h
        | inr idles ↦ rw idles h
      ]
  happen-cancelled a (connection_ends i) h = rw (move-moved i serving ended a) h
  happen-cancelled a (task_takes_shutdown i) h = rw (takes_effect i a h) h

  serve_tls-cancelled :
      (a : Acceptor S) (events : List Event)
      → a.cancelled ≡ true
      → (serve_tls app a events).cancelled ≡ true
  unfolding serve_tls
  serve_tls-cancelled a [] h = h
  serve_tls-cancelled a (event ∷ events) h =
      serve_tls-cancelled (happen app a event) events (happen-cancelled a event h)

  module _ (a : Acceptor S) (closed : a.listening ≡ false)
      (done : all is_ended a.tasks ≡ true) where
    no_move : (i : ℕ) (from : Phase) → phase_beq ended from ≡ false → move i from ended a ≡ a
    unfolding move
    no_move i from e = rw (idle i from a.tasks done e) refl

    no_answer :
        (i : ℕ) (o : Option Task) (path : Str)
        → in_phase serving o ≡ false
        → serve_on app o path a ≡ a
    no_answer i none path e = refl
    no_answer i (some t) path e = rw e refl

  -- What has stopped stays as it is.
  still :
      (a : Acceptor S) (event : Event)
      → a.listening ≡ false
      → a.cancelled ≡ true
      → all is_ended a.tasks ≡ true
      → happen app a event ≡ a
  unfolding happen move
  still a (accepted ip) closed told done = rw closed refl
  still a accept_error closed told done = refl
  still a shutdown closed told done = ap (λ b. record a { cancelled = b }) (sym told)
  still a loop_takes_shutdown closed told done =
      ap (λ b. if b then record a { listening = false } else a) told
      ∙ ap (λ b. record a { listening = b }) (sym closed)
  still a (handshake_done i) closed told done = rw (idle i handshaking a.tasks done refl) refl
  still a (handshake_failed i) closed told done = rw (idle i handshaking a.tasks done refl) refl
  still a (handshake_timed_out i) closed told done = rw (idle i handshaking a.tasks done refl) refl
  still a (request i path) closed told done =
      no_answer a closed done i (get_elem? a.tasks i) path (idle i serving a.tasks done refl)
  still a (connection_ends i) closed told done = rw (idle i serving a.tasks done refl) refl
  still a (task_takes_shutdown i) closed told done =
      ap (λ b. if b then move i serving ended a else a) told ∙ no_move a closed done i serving refl

  stays :
      (a : Acceptor S) (events : List Event)
      → a.listening ≡ false
      → a.cancelled ≡ true
      → all is_ended a.tasks ≡ true
      → serve_tls app a events ≡ a
  unfolding serve_tls
  stays a [] closed told done = refl
  stays a (event ∷ events) closed told done =
      ap (λ b. serve_tls app b events) (still a event closed told done)
      ∙ stays a events closed told done

  -- The shutdown is signalled, other events follow, and the loop takes it.
  abbrev pub stopping : Acceptor S → List Event → Acceptor S
  stopping a during = happen app (serve_tls app (happen app a shutdown) during) loop_takes_shutdown

  stopping-IsClosed : (a : Acceptor S) (during : List Event) → IsClosed (stopping a during)
  unfolding happen
  stopping-IsClosed a during =
      let told = serve_tls-cancelled (record a { cancelled = true }) during refl in
      rw told (refl, refl)

  -- Whatever events come between the signal of the shutdown and the moment at which the loop takes it,
  -- and whatever order of events, requests among them, follows: if in it every task that is there at
  -- that moment comes to its end, because its handshake fails or it takes the shutdown while it serves,
  -- then the loop no longer listens, there are no other tasks, every task has ended, and nothing that
  -- happens later changes anything.
  pub drain_stops :
      (a : Acceptor S) (during after later : List Event)
      → all_quit after 0 (stopping a during).tasks ≡ true
      → ((serve_tls app (stopping a during) after).listening ≡ false)
        × (length (serve_tls app (stopping a during) after).tasks
            ≡ length (stopping a during).tasks)
        × (all is_ended (serve_tls app (stopping a during) after).tasks ≡ true)
        × (serve_tls app (serve_tls app (stopping a during) after) later
            ≡ serve_tls app (stopping a during) after)
  drain_stops a during after later settle =
      let start = stopping a during in
      let (tasks, (deaf, told)) = serve_tls-effects start after (stopping-IsClosed a during) in
      let done = ap (all is_ended) tasks ∙ all_quit-ended after start.tasks settle in
      (
        deaf,
        ap length tasks ∙ length-effects after start.tasks,
        done,
        stays (serve_tls app start after) later deaf told done,
      )
