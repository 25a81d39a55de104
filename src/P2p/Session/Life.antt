-- ===== src/P2p/Session/Life.antt =====
-- The life of a session: where each connection that its tasks dialled is, over any sequence of steps.
pub mod Kept
pub mod Ownership
pub mod Ending
use uniconn.Prelude.{
  ℕ, ◌≡◌, Bool, true, false, Option, none, some, List, [], ◌∷◌, ◌==◌, if◌then◌else◌,
}
use uniconn.Outcome.{Outcome, ok, raised, pending, Exn}
use uniconn.P2p.Session.{
  Session, stop_begins, stop_ends, setup_dialed, setup_operated, controlled_by, queue_incoming,
  dial_returns, incoming_done, accept_resumes,
}

-- A connection is not dialled yet, in a running setup, out of one that returned, the control
-- connection, in the queue, with a waiting `accept`, with the caller, or given up.
pub data Phase : Type 0 where
  unborn opening ready controlling queued taken returned dropped : Phase

pub record Life : Type 0 where
  pub session : Session
  pub phase : ℕ → Phase

abbrev pub set_phase : ℕ → Phase → (ℕ → Phase) → ℕ → Phase
set_phase raw to phase other = if other == raw then to else phase other

-- The phase after a call: the first if it returned, and given up if it raised an exception.
abbrev pub phase_by : Phase → {A : Type 0} → Outcome A → Phase
phase_by to (ok a) = to
phase_by to (raised e) = dropped
phase_by to pending = to

abbrev pub moved : Life → Session → ℕ → Phase → Life
moved l s raw to = record { session = s; phase = set_phase raw to l.phase }

-- One step of a task, of a caller or of the network. A connection that is dialled is a new object.
pub data Step (l m : Life) : Type 0 where
  dials :
      (raw : ℕ)
      → l.phase raw ≡ unborn
      → m
        ≡ moved l
            (setup_dialed raw l.session).1
            raw
            (phase_by opening (setup_dialed raw l.session).0)
      → Step l m
  operates :
      (raw : ℕ) (result : Option Exn)
      → l.phase raw ≡ opening
      → m
        ≡ moved l
            (setup_operated raw result l.session).1
            raw
            (phase_by ready (setup_operated raw result l.session).0)
      → Step l m
  controls :
      (raw : ℕ)
      → l.phase raw ≡ ready
      → m ≡ moved l (controlled_by raw l.session) raw controlling
      → Step l m
  queues :
      (raw : ℕ)
      → l.phase raw ≡ ready
      → m ≡ moved l (queue_incoming raw l.session) raw queued
      → Step l m
  hands_over :
      (raw : ℕ)
      → l.phase raw ≡ ready
      → m
        ≡ moved l
            (dial_returns raw l.session).1
            raw
            (phase_by returned (dial_returns raw l.session).0)
      → Step l m
  takes :
      (raw : ℕ) (others : List ℕ)
      → l.session.incoming ≡ raw ∷ others
      → m ≡ moved l (incoming_done l.session) raw taken
      → Step l m
  resumes :
      (raw : ℕ) (cancelled : Bool)
      → l.phase raw ≡ taken
      → m
        ≡ moved l
            (accept_resumes (some raw) cancelled l.session).1
            raw
            (phase_by returned (accept_resumes (some raw) cancelled l.session).0)
      → Step l m
  stops : (reason : Exn) → m ≡ record l { session = stop_begins reason l.session } → Step l m
  drains : m ≡ record l { session = stop_ends l.session } → Step l m

pub data Reach (l : Life) : Life → Type 0 where
  here : Reach l l
  later : {m n : Life} → Reach l m → Step m n → Reach l n
