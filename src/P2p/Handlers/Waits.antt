-- ===== src/P2p/Handlers/Waits.antt =====
-- What `_setup` of p2p/node.py makes of the result of its run.
use uniconn.Prelude.{◌⊎◌, ℕ, ◌≡◌, refl, Bool, true, false, Bool-cases, inl, inr}
use uniconn.Outcome.{is_cancelled, Outcome, ok, raised, pending, Exn}
use uniconn.P2p.Session.{Session, session_error, set_error, setup_returns}
use uniconn.P2p.Session.Life.{ready, dropped, Life}
use uniconn.P2p.Session.Life.Kept.{is_owned}
use uniconn.P2p.Handlers.{
  Waited, timely, time_up, gap_cancelled, gap_timed_out, in_time_raised, in_time,
}
use uniconn.P2p.Handlers.Steps.{RunEnd, Left}

-- The `wait_for` raised although the run had ended.
abbrev pub in_gap : Waited → Bool
in_gap gap_cancelled = true
in_gap gap_timed_out = true
in_gap _ = false

-- What `_setup` leaves: a connection that is set up; or one that was given up, or, when the result of
-- the run was lost, that is set up and that nobody waits for.
abbrev pub SetupEnd : Waited → {A : Type 0} → ℕ → Outcome (ℕ × A) → Life → Type 0
SetupEnd waited raw (ok (raw', a)) l = (raw' ≡ raw) × (l.phase raw ≡ ready)
SetupEnd waited raw (raised e) l =
    (l.phase raw ≡ dropped) ⊎ ((in_gap waited ≡ true) × (l.phase raw ≡ ready))
SetupEnd waited raw pending l = is_owned (l.phase raw) ≡ true

module _ {A : Type 0} where
  setup_returns-raised :
      (e : Exn) (s : Session) → (e' : Exn) × (setup_returns {A = A} (raised e) s ≡ raised e')
  unfolding setup_returns
  setup_returns-raised e s = elim (Bool-cases (is_cancelled e)) [
    | inr c ↦ (e, rw c refl)
    | inl c ↦ elim (Bool-cases (set_error s.error)) [
      | inl h ↦ (session_error s.error, rw (c, h) refl)
      | inr h ↦ (e, rw (c, h) refl)
    ]
  ]

module _ (A : Type 0) (waited : Waited) (s : Session) (l : Life) where
  -- A raised exception, whatever it is turned into.
  raises-Left :
      (d : Outcome ℕ) (e : Exn)
      → Left (SetupEnd waited {A = A}) d (raised e) l
      → Left (SetupEnd waited {A = A}) d (setup_returns (raised e) s) l
  raises-Left (ok raw) e h = let (e', is) = setup_returns-raised {A = ℕ × A} e s in rw is h
  raises-Left (raised x) e h = let (e', is) = setup_returns-raised {A = ℕ × A} e s in rw is tt
  raises-Left pending e h = absurd h

  -- The result of the run is lost.
  loses-Left :
      (d : Outcome ℕ) (a : ℕ × A) (e : Exn)
      → in_gap waited ≡ true
      → Left RunEnd d (ok a) l
      → Left (SetupEnd waited {A = A}) d (setup_returns (raised e) s) l
  loses-Left (ok raw) a e gap h = raises-Left (ok raw) e (inr (gap, h.1))
  loses-Left (raised x) a e gap h = absurd h
  loses-Left pending a e gap h = absurd h

  fails-Left :
      (d : Outcome ℕ) (e e' : Exn)
      → Left (RunEnd {A = A}) d (raised e) l
      → Left (SetupEnd waited {A = A}) d (setup_returns (raised e') s) l
  fails-Left (ok raw) e e' h = raises-Left (ok raw) e' (inl h)
  fails-Left (raised x) e e' h = raises-Left (raised x) e' tt
  fails-Left pending e e' h = absurd h

waits-Left :
    (A : Type 0) (waited : Waited) (l : Life) (d : Outcome ℕ)
    → Left (RunEnd {A = A}) d pending l
    → Left (SetupEnd waited {A = A}) d pending l
waits-Left A waited l (ok raw) h = h
waits-Left A waited l (raised x) h = absurd h
waits-Left A waited l pending h = h

module _ {A : Type 0} where
  returns-Left :
      (waited : Waited) (l : Life) (d : Outcome ℕ) (a : ℕ × A)
      → Left RunEnd d (ok a) l
      → Left (SetupEnd waited) d (ok a) l
  returns-Left waited l (ok raw) a h = h
  returns-Left waited l (raised x) a h = absurd h
  returns-Left waited l pending a h = absurd h

  -- What `_setup` leaves, out of what the run left.
  pub setup_returns-Left :
      (waited : Waited) (s : Session) (d : Outcome ℕ) (r : Outcome (ℕ × A)) (l : Life)
      → Left RunEnd d r l
      → Left (SetupEnd waited) d (setup_returns (in_time waited r) s) l
  unfolding in_time
  setup_returns-Left waited s d pending l h = unfold setup_returns in waits-Left A waited l d h
  setup_returns-Left waited s d (raised e) l h =
      fails-Left A waited s l d e (in_time_raised waited e) h
  setup_returns-Left timely s d (ok a) l h = unfold setup_returns in returns-Left timely l d a h
  setup_returns-Left time_up s d (ok a) l h = unfold setup_returns in returns-Left time_up l d a h
  setup_returns-Left gap_cancelled s d (ok a) l h = loses-Left A gap_cancelled s l d a _ refl h
  setup_returns-Left gap_timed_out s d (ok a) l h = loses-Left A gap_timed_out s l d a _ refl h
