-- ===== src/P2p/Session/Life/Kept.antt =====
-- What holds of one connection of a session of p2p/node.py, and that each step keeps it.
use uniconn.Prelude.{
  ℕ, ◌+◌, ◌≤◌, ◌<◌, ◌≡◌, ap, Bool, true, false, Option, none, some, List, [], ◌∷◌, ◌++◌, ◌==◌,
  arith, if◌then◌else◌,
}
use uniconn.Outcome.{Exn}
use uniconn.P2p.Session.{
  Session, set_error, discard, stop_begins, stop_ends, setup_fails, setup_dialed, setup_operated,
  controlled_by, queue_incoming, dial_returns, take_incoming, accept_resumes,
}
use uniconn.P2p.Session.Life.{
  Phase, unborn, opening, ready, controlling, queued, taken, returned, dropped, set_phase, phase_by,
}

-- How often a connection is in a list.
abbrev pub times : ℕ → List ℕ → ℕ
times raw [] = 0
times raw (conn ∷ conns) =
    let others = times raw conns in if conn == raw then others + 1 else others

times-append :
    (raw : ℕ) (conns others : List ℕ)
    → times raw (conns ++ others) ≡ times raw conns + times raw others
times-append raw [] others = omega arith
times-append raw (conn ∷ conns) others = ground (arith, times-append raw conns others)

times-discard :
    (a raw : ℕ) (xs : List ℕ) → times a (discard raw xs) ≡ (if raw == a then 0 else times a xs)
unfolding discard
times-discard a raw [] = ground arith
times-discard a raw (x ∷ xs) = ground (arith, times-discard a raw xs)

-- The phases in which a connection is the session's.
abbrev pub is_owned : Phase → Bool
is_owned unborn = false
is_owned returned = false
is_owned dropped = false
is_owned _ = true

abbrev pub is_queued : Phase → Bool
is_queued queued = true
is_queued _ = false

abbrev pub is_taken : Phase → Bool
is_taken taken = true
is_taken _ = false

-- What holds of one connection, in the session `s` and its phase.
pub record IsKept (a : ℕ) (s : Session) (phase : Phase) : Type 0 where
  pub pending_while :
      set_error s.error ≡ false → times a s.pending_set ≡ (if is_owned phase then 1 else 0)
  pub queued_once : times a s.incoming ≤ (if is_queued phase then 1 else 0)
  pub held_once : times a s.held ≤ (if is_taken phase then 1 else 0)
  pub left_alone : phase ≡ returned → times a s.shut ≡ 0
  pub untouched : phase ≡ unborn → times a s.shut ≡ 0
  pub open_while : set_error s.error ≡ false → is_owned phase ≡ true → times a s.shut ≡ 0
  pub closed_after : set_error s.error ≡ true → is_owned phase ≡ true → 0 < times a s.shut
  pub closed_if_dropped : phase ≡ dropped → 0 < times a s.shut

-- Whether the session has ended, by its error.
pub record IsEnded (s : Session) : Type 0 where
  pub flag : s.ended ≡ set_error s.error
  pub released : set_error s.error ≡ true → s.pending_set ≡ []

pub dials-IsKept :
    (a raw : ℕ) (s : Session) (phase : ℕ → Phase)
    → IsEnded s
    → IsKept a s (phase a)
    → phase raw ≡ unborn
    → IsKept a
        (setup_dialed raw s).1
        (set_phase raw (phase_by opening (setup_dialed raw s).0) phase a)
unfolding setup_dialed setup_fails
dials-IsKept a raw s phase e h born =
    ground (arith, times-append a s.shut (raw ∷ []), times-discard a raw (raw ∷ s.pending_set))

pub operates-IsKept :
    (a raw : ℕ) (result : Option Exn) (s : Session) (phase : ℕ → Phase)
    → IsEnded s
    → IsKept a s (phase a)
    → phase raw ≡ opening
    → IsKept a
        (setup_operated raw result s).1
        (set_phase raw (phase_by ready (setup_operated raw result s).0) phase a)
unfolding setup_operated setup_fails
operates-IsKept a raw none s phase e h running =
    ground (arith, times-append a s.shut (raw ∷ []), times-discard a raw s.pending_set)
operates-IsKept a raw (some x) s phase e h running =
    ground (arith, times-append a s.shut (raw ∷ []), times-discard a raw s.pending_set)

pub controls-IsKept :
    (a raw : ℕ) (s : Session) (phase : ℕ → Phase)
    → IsKept a s (phase a)
    → phase raw ≡ ready
    → IsKept a (controlled_by raw s) (set_phase raw controlling phase a)
unfolding controlled_by
controls-IsKept a raw s phase h waiting = ground arith

pub queues-IsKept :
    (a raw : ℕ) (s : Session) (phase : ℕ → Phase)
    → IsKept a s (phase a)
    → phase raw ≡ ready
    → IsKept a (queue_incoming raw s) (set_phase raw queued phase a)
unfolding queue_incoming
queues-IsKept a raw s phase h waiting = ground (arith, times-append a s.incoming (raw ∷ []))

pub hands_over-IsKept :
    (a raw : ℕ) (s : Session) (phase : ℕ → Phase)
    → IsKept a s (phase a)
    → phase raw ≡ ready
    → IsKept a
        (dial_returns raw s).1
        (set_phase raw (phase_by returned (dial_returns raw s).0) phase a)
unfolding dial_returns
hands_over-IsKept a raw s phase h waiting =
    ground (arith, times-append a s.shut (raw ∷ []), times-discard a raw s.pending_set)

pub takes-IsKept :
    (a raw : ℕ) (others : List ℕ) (s : Session) (phase : ℕ → Phase)
    → IsKept a s (phase a)
    → IsKept raw s (phase raw)
    → s.incoming ≡ raw ∷ others
    → IsKept a (take_incoming (raw ∷ others) s) (set_phase raw taken phase a)
unfolding take_incoming
takes-IsKept a raw others s phase h h' first =
    ground (arith, times-append a s.held (raw ∷ []), ap (times a) first, ap (times raw) first)

pub resumes-IsKept :
    (a raw : ℕ) (cancelled : Bool) (s : Session) (phase : ℕ → Phase)
    → IsKept a s (phase a)
    → phase raw ≡ taken
    → IsKept a
        (accept_resumes (some raw) cancelled s).1
        (set_phase raw (phase_by returned (accept_resumes (some raw) cancelled s).0) phase a)
unfolding accept_resumes
resumes-IsKept a raw cancelled s phase h waiting = ground (
  arith,
  times-append a s.shut (raw ∷ []),
  times-discard a raw s.pending_set,
  times-discard a raw s.held,
)

pub stops-IsKept :
    (a : ℕ) (reason : Exn) (s : Session) (phase : Phase)
    → IsKept a s phase
    → IsKept a (stop_begins reason s) phase
unfolding stop_begins
stops-IsKept a reason s phase h = ground (arith, times-append a s.shut s.pending_set)

pub drains-IsKept :
    (a : ℕ) (s : Session) (phase : Phase) → IsKept a s phase → IsKept a (stop_ends s) phase
unfolding stop_ends
drains-IsKept a s phase h = ground arith

pub dials-IsEnded : (raw : ℕ) (s : Session) → IsEnded s → IsEnded (setup_dialed raw s).1
unfolding setup_dialed setup_fails discard
dials-IsEnded raw s e = ground arith

pub operates-IsEnded :
    (raw : ℕ) (result : Option Exn) (s : Session)
    → IsEnded s
    → IsEnded (setup_operated raw result s).1
unfolding setup_operated setup_fails discard
operates-IsEnded raw none s e = ground arith
operates-IsEnded raw (some x) s e = ground arith

pub hands_over-IsEnded : (raw : ℕ) (s : Session) → IsEnded s → IsEnded (dial_returns raw s).1
unfolding dial_returns discard
hands_over-IsEnded raw s e = ground arith

pub resumes-IsEnded :
    (raw : ℕ) (cancelled : Bool) (s : Session)
    → IsEnded s
    → IsEnded (accept_resumes (some raw) cancelled s).1
unfolding accept_resumes discard
resumes-IsEnded raw cancelled s e = ground arith

pub stops-IsEnded : (reason : Exn) (s : Session) → IsEnded s → IsEnded (stop_begins reason s)
unfolding stop_begins
stops-IsEnded reason s e = ground arith
