-- ===== src/Start/Phases.antt =====
-- src/main.rs: the schedules in which the tasks of a listener that no longer accepts come to their end.
use didicafe.Base.{
  ℕ, zero, suc, ◌+◌, ◌≡◌, refl, ◌∙◌, subst, Bool, true, false, ◌&&◌, some, List, [], ◌∷◌,
  if◌then◌else◌, arith, eqb, ◌<◌, get_elem?, length, all, any,
}
use didicafe.Start.{
  Event, accepted, accept_error, shutdown, loop_takes_shutdown, handshake_done, handshake_failed,
  handshake_timed_out, request, connection_ends, task_takes_shutdown, Phase, handshaking, serving,
  ended, Task, in_phase, phase_beq,
}
use didicafe.Start.Moves.{is_ended, effect, next, get-effect, length-effect}

-- This task takes the shutdown.
abbrev pub takes : ℕ → Event → Bool
takes i (task_takes_shutdown j) = eqb j i
takes i _ = false

-- The events that end a handshake without a connection, and the one that completes it.
abbrev pub fails : ℕ → Event → Bool
fails i (handshake_failed j) = eqb j i
fails i (handshake_timed_out j) = eqb j i
fails i _ = false

abbrev pub completes : ℕ → Event → Bool
completes i (handshake_done j) = eqb j i
completes i _ = false

-- A task comes to its end in a schedule: it has ended; or it serves, and takes the shutdown; or it is
-- in its handshake, which fails, or which completes and it takes the shutdown later.
abbrev pub quits : ℕ → Phase → List Event → Bool
quits i ended events = true
quits i serving events = any (takes i) events
quits i handshaking [] = false
quits i handshaking (event ∷ events) =
    let rest = quits i handshaking events in
    if fails i event then true else if completes i event then any (takes i) events else rest

-- Every task of the list does, the first of which is the `k`-th.
abbrev pub all_quit : List Event → ℕ → List Task → Bool
all_quit events k [] = true
all_quit events k (t ∷ tasks) = quits k t.phase events && all_quit events (suc k) tasks

pub quit_at :
    (events : List Event) (k i : ℕ) (tasks : List Task) (t : Task)
    → all_quit events k tasks ≡ true
    → get_elem? tasks i ≡ some t
    → quits (k + i) t.phase events ≡ true
quit_at events k i [] t h e = cc
quit_at events k zero (u ∷ tasks) t h e =
    subst (λ n. quits n t.phase events ≡ true) (let same : k ≡ k + 0 = omega arith in same)
      (let q : quits k u.phase events ≡ true = ground arith in
        subst (λ (v : Task). quits k v.phase events ≡ true)
          (let same : u ≡ t = ground arith in same) q)
quit_at events k (suc i) (u ∷ tasks) t h e =
    subst (λ n. quits n t.phase events ≡ true)
      (let same : suc k + i ≡ k + suc i = omega arith in same)
      (quit_at events (suc k) i tasks t
        (let f : all_quit events (suc k) tasks ≡ true = ground arith in f) e)

next-quits :
    (i : ℕ) (phase : Phase) (event : Event) (events : List Event)
    → quits i phase (event ∷ events) ≡ true
    → quits i (next i event phase) events ≡ true
next-quits i handshaking (handshake_done j) events h = ground arith
next-quits i handshaking (handshake_failed j) events h = ground arith
next-quits i handshaking (handshake_timed_out j) events h = ground arith
next-quits i handshaking (connection_ends j) events h = ground arith
next-quits i handshaking (task_takes_shutdown j) events h = ground arith
next-quits i handshaking (accepted ip) events h = h
next-quits i handshaking accept_error events h = h
next-quits i handshaking shutdown events h = h
next-quits i handshaking loop_takes_shutdown events h = h
next-quits i handshaking (request j path) events h = h
next-quits i serving (handshake_done j) events h = ground arith
next-quits i serving (handshake_failed j) events h = ground arith
next-quits i serving (handshake_timed_out j) events h = ground arith
next-quits i serving (connection_ends j) events h = ground arith
next-quits i serving (task_takes_shutdown j) events h = ground arith
next-quits i serving (accepted ip) events h = h
next-quits i serving accept_error events h = h
next-quits i serving shutdown events h = h
next-quits i serving loop_takes_shutdown events h = h
next-quits i serving (request j path) events h = h
next-quits i ended (handshake_done j) events h = ground arith
next-quits i ended (handshake_failed j) events h = ground arith
next-quits i ended (handshake_timed_out j) events h = ground arith
next-quits i ended (connection_ends j) events h = ground arith
next-quits i ended (task_takes_shutdown j) events h = ground arith
next-quits i ended (accepted ip) events h = refl
next-quits i ended accept_error events h = refl
next-quits i ended shutdown events h = refl
next-quits i ended loop_takes_shutdown events h = refl
next-quits i ended (request j path) events h = refl

abbrev pub effects : List Event → List Task → List Task
effects [] tasks = tasks
effects (event ∷ events) tasks = effects events (effect event tasks)

last_phase : (i : ℕ) (phase : Phase) → quits i phase [] ≡ true → phase_beq phase ended ≡ true
last_phase i handshaking h = h
last_phase i serving h = h
last_phase i ended h = refl

-- A task that comes to its end in a schedule has ended after it.
quits-ended :
    (i : ℕ) (events : List Event) (tasks : List Task) (t : Task)
    → get_elem? tasks i ≡ some t
    → quits i t.phase events ≡ true
    → in_phase ended (get_elem? (effects events tasks) i) ≡ true
quits-ended i [] tasks t h q = rw h (last_phase i t.phase q)
quits-ended i (event ∷ events) tasks t h q =
    quits-ended i events (effect event tasks) (record t { phase = next i event t.phase })
      (get-effect i event tasks t h) (next-quits i t.phase event events q)

pub length-effects :
    (events : List Event) (tasks : List Task) → length (effects events tasks) ≡ length tasks
length-effects [] tasks = refl
length-effects (event ∷ events) tasks =
    length-effects events (effect event tasks) ∙ length-effect event tasks

-- A list of which every place below its length is of an ended task.
everywhere :
    (tasks : List Task)
    → ((i : ℕ) → i < length tasks → in_phase ended (get_elem? tasks i) ≡ true)
    → all is_ended tasks ≡ true
everywhere [] h = refl
everywhere (t ∷ tasks) h =
    let first : is_ended t ≡ true = h 0 (omega arith) in
    ground (arith, everywhere tasks (λ i b. h (suc i) (omega arith)))

there : (i : ℕ) (tasks : List Task) → i < length tasks → (t : Task) × (get_elem? tasks i ≡ some t)
there i [] h = absurd (omega arith)
there zero (t ∷ tasks) h = (t, refl)
there (suc i) (t ∷ tasks) h = there i tasks (omega arith)

pub all_quit-ended :
    (events : List Event) (tasks : List Task)
    → all_quit events 0 tasks ≡ true
    → all is_ended (effects events tasks) ≡ true
all_quit-ended events tasks h = everywhere (effects events tasks) (λ i below.
    let (t, found) = there i tasks (omega (arith, length-effects events tasks)) in
    quits-ended i events tasks t found (
      subst (λ n. quits n t.phase events ≡ true) (let e : 0 + i ≡ i = omega arith in e)
        (quit_at events 0 i tasks t h found)))
