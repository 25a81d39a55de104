-- ===== src/P2p/Session/Life/Ownership.antt =====
-- Who owns the connections of a session of p2p/node.py, in every state that its steps lead to.
use uniconn.Prelude.{ℕ, ◌<◌, ◌≡◌, ◌≢◌, ◌⊎◌, inl, inr, refl, sym, subst, String, true, arith}
use uniconn.Struct.{Bytes}
use uniconn.P2p.Session.{
  Session, new_session, set_error, stop_ends, controlled_by, queue_incoming, take_incoming,
  incoming_done,
}
use uniconn.P2p.Session.Life.{
  Phase, unborn, opening, ready, controlling, queued, taken, returned, dropped, Life, Step, dials,
  operates, controls, queues, hands_over, takes, resumes, stops, drains, Reach, here, later,
}
use uniconn.P2p.Session.Life.Kept.{
  times, IsKept, IsEnded, dials-IsKept, operates-IsKept, controls-IsKept, queues-IsKept,
  hands_over-IsKept, takes-IsKept, resumes-IsKept, stops-IsKept, drains-IsKept, dials-IsEnded,
  operates-IsEnded, hands_over-IsEnded, resumes-IsEnded, stops-IsEnded,
}

pub record IsOwned (l : Life) : Type 0 where
  pub ends : IsEnded l.session
  pub keeps : (a : ℕ) → IsKept a l.session (l.phase a)

Step-IsOwned : (l m : Life) → Step l m → IsOwned l → IsOwned m
unfolding incoming_done controlled_by queue_incoming stop_ends take_incoming
Step-IsOwned l m (dials raw born e) h = subst IsOwned (sym e) (record {
  ends = dials-IsEnded raw l.session h.ends;
  keeps = λ a. dials-IsKept a raw l.session l.phase h.ends (h.keeps a) born;
})
Step-IsOwned l m (operates raw result running e) h = subst IsOwned (sym e) (record {
  ends = operates-IsEnded raw result l.session h.ends;
  keeps = λ a. operates-IsKept a raw result l.session l.phase h.ends (h.keeps a) running;
})
Step-IsOwned l m (controls raw waiting e) h = subst IsOwned (sym e) (record {
  ends = record { flag = h.ends.flag; released = h.ends.released };
  keeps = λ a. controls-IsKept a raw l.session l.phase (h.keeps a) waiting;
})
Step-IsOwned l m (queues raw waiting e) h = subst IsOwned (sym e) (record {
  ends = record { flag = h.ends.flag; released = h.ends.released };
  keeps = λ a. queues-IsKept a raw l.session l.phase (h.keeps a) waiting;
})
Step-IsOwned l m (hands_over raw waiting e) h = subst IsOwned (sym e) (record {
  ends = hands_over-IsEnded raw l.session h.ends;
  keeps = λ a. hands_over-IsKept a raw l.session l.phase (h.keeps a) waiting;
})
Step-IsOwned l m (takes raw others first e) h = subst IsOwned (sym e) (
    rw first (record {
      ends = record { flag = h.ends.flag; released = h.ends.released };
      keeps = λ a. takes-IsKept a raw others l.session l.phase (h.keeps a) (h.keeps raw) first;
    }))
Step-IsOwned l m (resumes raw cancelled waiting e) h = subst IsOwned (sym e) (record {
  ends = resumes-IsEnded raw cancelled l.session h.ends;
  keeps = λ a. resumes-IsKept a raw cancelled l.session l.phase (h.keeps a) waiting;
})
Step-IsOwned l m (stops reason e) h = subst IsOwned (sym e) (record {
  ends = stops-IsEnded reason l.session h.ends;
  keeps = λ a. stops-IsKept a reason l.session (l.phase a) (h.keeps a);
})
Step-IsOwned l m (drains e) h = subst IsOwned (sym e) (record {
  ends = record { flag = h.ends.flag; released = h.ends.released };
  keeps = λ a. drains-IsKept a l.session (l.phase a) (h.keeps a);
})

-- A new session, with nothing dialled.
abbrev pub opened : String → Bytes → Life
opened addr fp = record { session = new_session addr fp; phase = λ a. unborn }

opened-IsOwned : (addr : String) (fp : Bytes) → IsOwned (opened addr fp)
unfolding new_session
opened-IsOwned addr fp = record {
  ends = record { flag = refl; released = λ e. cc };
  keeps = λ a. ground arith;
}

-- In every state that the steps of a new session lead to: while the session runs, a connection is in
-- its pending set, once, exactly if it was dialled and neither returned to a caller nor given up, and
-- such a connection was not closed by the node; a connection that was returned was never closed by
-- the node; one that was given up was; and once the session has ended, its pending set is empty, and
-- each connection that it still had was closed.
pub Reach-IsOwned : (addr : String) (fp : Bytes) {l : Life} → Reach (opened addr fp) l → IsOwned l
Reach-IsOwned addr fp here = opened-IsOwned addr fp
Reach-IsOwned addr fp (later {m} {n} r st) = Step-IsOwned m n st (Reach-IsOwned addr fp r)

phase_cases :
    (s : Session) (a : ℕ) (phase : Phase)
    → IsKept a s phase
    → set_error s.error ≡ true
    → phase ≢ unborn
    → (0 < times a s.shut) ⊎ ((phase ≡ returned) × (times a s.shut ≡ 0))
phase_cases s a unborn h ended born = absurd (born refl)
phase_cases s a returned h ended born = inr (refl, h.left_alone refl)
phase_cases s a dropped h ended born = inl (h.closed_if_dropped refl)
phase_cases s a opening h ended born = inl (h.closed_after ended refl)
phase_cases s a ready h ended born = inl (h.closed_after ended refl)
phase_cases s a controlling h ended born = inl (h.closed_after ended refl)
phase_cases s a queued h ended born = inl (h.closed_after ended refl)
phase_cases s a taken h ended born = inl (h.closed_after ended refl)

-- Once a session has ended, every connection that its tasks dialled was closed by the node, or was
-- returned to a caller and never closed by the node.
pub ended-releases :
    (addr : String) (fp : Bytes) (l : Life) (a : ℕ)
    → Reach (opened addr fp) l
    → set_error l.session.error ≡ true
    → l.phase a ≢ unborn
    → (0 < times a l.session.shut) ⊎ ((l.phase a ≡ returned) × (times a l.session.shut ≡ 0))
ended-releases addr fp l a r ended born =
    let h = (Reach-IsOwned addr fp r).keeps a in phase_cases l.session a (l.phase a) h ended born
