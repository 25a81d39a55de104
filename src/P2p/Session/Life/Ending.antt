-- ===== src/P2p/Session/Life/Ending.antt =====
-- The error of a session of p2p/node.py, over the steps of its life.
use uniconn.Prelude.{ℕ, ◌≡◌, refl, Bool, true, Option, none, some, List, [], ◌∷◌, arith}
use uniconn.Outcome.{Exn}
use uniconn.P2p.Session.{
  Session, set_error, setup_fails, stop_begins, stop_ends, setup_dialed, setup_operated,
  controlled_by, queue_incoming, dial_returns, take_incoming, incoming_done, accept_resumes,
}
use uniconn.P2p.Session.Life.{
  Life, Step, dials, operates, controls, queues, hands_over, takes, resumes, stops, drains,
}

-- A session that has ended stays so.
pub stops-over : (reason : Exn) (s : Session) → set_error (stop_begins reason s).error ≡ true
unfolding stop_begins
stops-over reason s = ground arith

dials-error : (raw : ℕ) (s : Session) → (setup_dialed raw s).1.error ≡ s.error
unfolding setup_dialed setup_fails
dials-error raw s = ground arith

operates-error :
    (raw : ℕ) (r : Option Exn) (s : Session) → (setup_operated raw r s).1.error ≡ s.error
unfolding setup_operated setup_fails
operates-error raw none s = ground arith
operates-error raw (some e) s = refl

hands_over-error : (raw : ℕ) (s : Session) → (dial_returns raw s).1.error ≡ s.error
unfolding dial_returns
hands_over-error raw s = ground arith

resumes-error :
    (raw : ℕ) (cancelled : Bool) (s : Session)
    → (accept_resumes (some raw) cancelled s).1.error ≡ s.error
unfolding accept_resumes
resumes-error raw cancelled s = ground arith

take-error : (incoming : List ℕ) (s : Session) → (take_incoming incoming s).error ≡ s.error
unfolding take_incoming
take-error [] s = refl
take-error (raw ∷ others) s = refl

pub Step-over :
    (l m : Life) → Step l m → set_error l.session.error ≡ true → set_error m.session.error ≡ true
unfolding incoming_done controlled_by queue_incoming stop_ends
Step-over l m (dials raw born e) h = rw e (rw (dials-error raw l.session) h)
Step-over l m (operates raw r p e) h = rw e (rw (operates-error raw r l.session) h)
Step-over l m (controls raw p e) h = rw e h
Step-over l m (queues raw p e) h = rw e h
Step-over l m (hands_over raw p e) h = rw e (rw (hands_over-error raw l.session) h)
Step-over l m (takes raw others p e) h = rw e (rw (take-error l.session.incoming l.session) h)
Step-over l m (resumes raw c p e) h = rw e (rw (resumes-error raw c l.session) h)
Step-over l m (stops reason e) h = rw e (stops-over reason l.session)
Step-over l m (drains e) h = rw e h
