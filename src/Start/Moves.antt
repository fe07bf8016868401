-- ===== src/Start/Moves.antt =====
-- src/main.rs: what an event does to the tasks of a listener that no longer accepts connections.
use didicafe.Base.{
  ℕ, zero, suc, ◌≡◌, refl, ap, sym, ◌∙◌, subst, Bool, true, false, ◌&&◌, some, List, [], ◌∷◌,
  if◌then◌else◌, arith, eqb, eqb_iff, get_elem?, length, Bool-cases, inl, inr, all,
}
use didicafe.Start.{
  Event, accepted, accept_error, shutdown, loop_takes_shutdown, handshake_done, handshake_failed,
  handshake_timed_out, request, connection_ends, task_takes_shutdown, Phase, handshaking, serving,
  ended, Task, set_phase, in_phase, phase_beq,
}

abbrev pub is_ended : Task → Bool
is_ended t = phase_beq t.phase ended

abbrev pub moved : ℕ → Phase → Phase → List Task → List Task
moved i from to tasks = if in_phase from (get_elem? tasks i) then set_phase i to tasks else tasks

-- What an event does to the tasks of a listener that has stopped accepting.
abbrev pub effect : Event → List Task → List Task
effect (handshake_done i) tasks = moved i handshaking serving tasks
effect (handshake_failed i) tasks = moved i handshaking ended tasks
effect (handshake_timed_out i) tasks = moved i handshaking ended tasks
effect (connection_ends i) tasks = moved i serving ended tasks
effect (task_takes_shutdown i) tasks = moved i serving ended tasks
effect _ tasks = tasks

-- What it does to the phase of one of them.
abbrev pub next_of : ℕ → ℕ → Phase → Phase → Phase → Phase
next_of i j from to phase = if eqb j i && phase_beq phase from then to else phase

abbrev pub next : ℕ → Event → Phase → Phase
next i (handshake_done j) phase = next_of i j handshaking serving phase
next i (handshake_failed j) phase = next_of i j handshaking ended phase
next i (handshake_timed_out j) phase = next_of i j handshaking ended phase
next i (connection_ends j) phase = next_of i j serving ended phase
next i (task_takes_shutdown j) phase = next_of i j serving ended phase
next i _ phase = phase

get-set :
    (i : ℕ) (phase : Phase) (tasks : List Task) (t : Task)
    → get_elem? tasks i ≡ some t
    → get_elem? (set_phase i phase tasks) i ≡ some (record t { phase = phase })
get-set i phase [] t h = cc
get-set zero phase (u ∷ tasks) t h = ground arith
get-set (suc i) phase (u ∷ tasks) t h = get-set i phase tasks t h

get-set_ne :
    (i j : ℕ) (phase : Phase) (tasks : List Task)
    → eqb j i ≡ false
    → get_elem? (set_phase j phase tasks) i ≡ get_elem? tasks i
get-set_ne i j phase [] h = refl
get-set_ne zero zero phase (u ∷ tasks) h = cc
get-set_ne zero (suc j) phase (u ∷ tasks) h = refl
get-set_ne (suc i) zero phase (u ∷ tasks) h = refl
get-set_ne (suc i) (suc j) phase (u ∷ tasks) h =
    get-set_ne i j phase tasks (let e : eqb j i ≡ false = ground arith in e)

abbrev rephased : Task → Bool → Phase → Task
rephased t b to = record t { phase = if b then to else t.phase }

get-moved_self :
    (i : ℕ) (from to : Phase) (tasks : List Task) (t : Task)
    → get_elem? tasks i ≡ some t
    → get_elem? (moved i from to tasks) i ≡ some (rephased t (phase_beq t.phase from) to)
get-moved_self i from to tasks t h = elim (Bool-cases (phase_beq t.phase from)) [
  | inl is_in ↦
      rw (is_in, moved)
        (rw (let e : in_phase from (get_elem? tasks i) ≡ true = rw h is_in in e)
          (get-set i to tasks t h))
  | inr out ↦
      rw (out, moved) (rw (let e : in_phase from (get_elem? tasks i) ≡ false = rw h out in e) h)
]

get-moved_ne :
    (i j : ℕ) (from to : Phase) (tasks : List Task)
    → eqb j i ≡ false
    → get_elem? (moved j from to tasks) i ≡ get_elem? tasks i
get-moved_ne i j from to tasks h = elim (Bool-cases (in_phase from (get_elem? tasks j))) [
  | inl is_in ↦ rw (is_in, moved) (get-set_ne i j to tasks h)
  | inr out ↦ rw (out, moved) refl
]

get-moved :
    (i j : ℕ) (from to : Phase) (tasks : List Task) (t : Task)
    → get_elem? tasks i ≡ some t
    → get_elem? (moved j from to tasks) i ≡ some (record t { phase = next_of i j from to t.phase })
get-moved i j from to tasks t h = elim (Bool-cases (eqb j i)) [
  | inl same ↦
      rw (same, next_of)
        (subst
          (λ n. get_elem? (moved n from to tasks) i ≡ some (rephased t (phase_beq t.phase from) to))
          (sym ((eqb_iff j i).0 same)) (get-moved_self i from to tasks t h))
  | inr other ↦ rw (other, next_of) (get-moved_ne i j from to tasks other ∙ h)
]

pub get-effect :
    (i : ℕ) (event : Event) (tasks : List Task) (t : Task)
    → get_elem? tasks i ≡ some t
    → get_elem? (effect event tasks) i ≡ some (record t { phase = next i event t.phase })
get-effect i (handshake_done j) tasks t h = get-moved i j handshaking serving tasks t h
get-effect i (handshake_failed j) tasks t h = get-moved i j handshaking ended tasks t h
get-effect i (handshake_timed_out j) tasks t h = get-moved i j handshaking ended tasks t h
get-effect i (connection_ends j) tasks t h = get-moved i j serving ended tasks t h
get-effect i (task_takes_shutdown j) tasks t h = get-moved i j serving ended tasks t h
get-effect i (accepted ip) tasks t h = h
get-effect i accept_error tasks t h = h
get-effect i shutdown tasks t h = h
get-effect i loop_takes_shutdown tasks t h = h
get-effect i (request j path) tasks t h = h

length-set :
    (i : ℕ) (phase : Phase) (tasks : List Task) → length (set_phase i phase tasks) ≡ length tasks
length-set i phase [] = refl
length-set zero phase (t ∷ tasks) = refl
length-set (suc i) phase (t ∷ tasks) = ap suc (length-set i phase tasks)

length-moved :
    (i : ℕ) (from to : Phase) (tasks : List Task) → length (moved i from to tasks) ≡ length tasks
length-moved i from to tasks = elim (Bool-cases (in_phase from (get_elem? tasks i))) [
  | inl is_in ↦ rw (is_in, moved) (length-set i to tasks)
  | inr out ↦ rw (out, moved) refl
]

pub length-effect : (event : Event) (tasks : List Task) → length (effect event tasks) ≡ length tasks
length-effect (handshake_done j) tasks = length-moved j handshaking serving tasks
length-effect (handshake_failed j) tasks = length-moved j handshaking ended tasks
length-effect (handshake_timed_out j) tasks = length-moved j handshaking ended tasks
length-effect (connection_ends j) tasks = length-moved j serving ended tasks
length-effect (task_takes_shutdown j) tasks = length-moved j serving ended tasks
length-effect (accepted ip) tasks = refl
length-effect accept_error tasks = refl
length-effect shutdown tasks = refl
length-effect loop_takes_shutdown tasks = refl
length-effect (request j path) tasks = refl

idle_phase :
    (phase from : Phase)
    → phase_beq phase ended ≡ true
    → phase_beq ended from ≡ false
    → phase_beq phase from ≡ false
idle_phase handshaking from h e = cc
idle_phase serving from h e = cc
idle_phase ended from h e = e

pub idle :
    (i : ℕ) (from : Phase) (tasks : List Task)
    → all is_ended tasks ≡ true
    → phase_beq ended from ≡ false
    → in_phase from (get_elem? tasks i) ≡ false
idle i from [] h e = refl
idle zero from (t ∷ tasks) h e =
    idle_phase t.phase from (let f : is_ended t ≡ true = ground arith in f) e
idle (suc i) from (t ∷ tasks) h e =
    idle i from tasks (let f : all is_ended tasks ≡ true = ground arith in f) e
