-- ===== src/P2p/Handlers/Accepting.antt =====
-- `accept` of p2p/node.py behind `_current_session`, and what it leaves to its caller.
use uniconn.Prelude.{
  ℕ, ◌<◌, ◌≡◌, refl, sym, subst, String, Bool, true, false, Option, none, some, Bool-cases, inl,
  inr,
}
use uniconn.Outcome.{Outcome, ok, raised, pending}
use uniconn.Action.{Action}
use uniconn.Struct.{Bytes}
use uniconn.P2p.Session.{Session, set_error, accept_resumes}
use uniconn.P2p.Session.Life.{taken, returned, Life, phase_by, Reach, later, resumes}
use uniconn.P2p.Session.Life.Kept.{times}
use uniconn.P2p.Session.Life.Ownership.{IsOwned, opened, Reach-IsOwned}
use uniconn.P2p.Handlers.{on_session}
use uniconn.P2p.Handlers.Settled.{unowned_lem}
use uniconn.P2p.Handlers.Goes.{Reach-trans, set_phase-same}

-- `wait` is the wait for the queue and the end of the session, in which other tasks run: what the task
-- `incoming` of this call has got. `cancelled` is whether the call was cancelled in it.
unfoldable pub accept_peer {ℓ} :
    {W : Type ℓ} → (Session × W → Option ℕ × (Session × W)) → Bool → Action (Session × W) ℕ
accept_peer wait cancelled x = let (got, y) = wait x in on_session (accept_resumes got cancelled) y

-- By the connection that the task of the call had got: it was returned, and is neither closed by the
-- node nor in its pending set; or it was closed, and is out of that set. With none, there is none to
-- return.
abbrev pub IsHandedOver : Option ℕ → Outcome ℕ → Session → Type 0
IsHandedOver none (ok raw) s = ⊥
IsHandedOver none r s = Unit
IsHandedOver (some raw) (ok raw') s =
    (raw' ≡ raw) × (times raw s.shut ≡ 0) × (times raw s.pending_set ≡ 0)
IsHandedOver (some raw) (raised e) s = (0 < times raw s.shut) × (times raw s.pending_set ≡ 0)
IsHandedOver (some raw) pending s = ⊥

-- What a wait leaves: a session that other tasks have come to, in which the connection that it got is
-- with a waiting call.
pub record Awaits (l : Life) (got : Option ℕ) (s : Session) : Type 0 where
  pub after : Life
  pub reach : Reach l after
  pub session_is : s ≡ after.session
  pub got_is : (raw : ℕ) → got ≡ some raw → after.phase raw ≡ taken

none_got :
    (cancelled : Bool) (s : Session)
    → IsHandedOver none (accept_resumes none cancelled s).0 (accept_resumes none cancelled s).1
unfolding accept_resumes
none_got true s = tt
none_got false s = elim (Bool-cases (set_error s.error)) [ inl h ↦ simp h tt | inr h ↦ simp h tt ]

-- What the call returns is the connection that it has got.
abbrev Gives : ℕ → Outcome ℕ → Type 0
Gives raw (ok raw') = raw' ≡ raw
Gives raw (raised e) = Unit
Gives raw pending = ⊥

accept_resumes-Gives :
    (raw : ℕ) (cancelled : Bool) (s : Session) → Gives raw (accept_resumes (some raw) cancelled s).0
unfolding accept_resumes
accept_resumes-Gives raw true s = tt
accept_resumes-Gives raw false s = elim (Bool-cases (set_error s.error)) [
  | inl h ↦ simp h tt
  | inr h ↦ simp h refl
]

resumed-IsHandedOver :
    (raw : ℕ) (r : Outcome ℕ) (l : Life)
    → IsOwned l
    → l.phase raw ≡ phase_by returned r
    → Gives raw r
    → IsHandedOver (some raw) r l.session
resumed-IsHandedOver raw (ok raw') l h phase gives = (
  gives,
  (h.keeps raw).left_alone phase,
  unowned_lem raw l.session (l.phase raw) h.ends (h.keeps raw) (rw phase refl),
)
resumed-IsHandedOver raw (raised e) l h phase gives = (
  (h.keeps raw).closed_if_dropped phase,
  unowned_lem raw l.session (l.phase raw) h.ends (h.keeps raw) (rw phase refl),
)
resumed-IsHandedOver raw pending l h phase gives = absurd gives

accept_resumes-IsHandedOver :
    (addr : String) (fp : Bytes) (cancelled : Bool) (got : Option ℕ) (l : Life)
    → Reach (opened addr fp) l
    → ((raw : ℕ) → got ≡ some raw → l.phase raw ≡ taken)
    → IsHandedOver got
        (accept_resumes got cancelled l.session).0
        (accept_resumes got cancelled l.session).1
accept_resumes-IsHandedOver addr fp cancelled none l reached has = none_got cancelled l.session
accept_resumes-IsHandedOver addr fp cancelled (some raw) l reached has =
    resumed-IsHandedOver raw _ _
      (Reach-IsOwned addr fp (later reached (resumes raw cancelled (has raw refl) refl)))
      (set_phase-same raw _ l.phase) (accept_resumes-Gives raw cancelled l.session)

-- Of `accept` on a session in any state that its steps lead to, while other tasks of the node, other
-- calls of `accept` among them, take any steps in its wait: if the call's own task got a connection
-- from the queue, the call does not wait on; if it returns, it returns that connection, which the
-- node has not closed, and which is out of the pending set; and if it raises an exception, also since
-- it was cancelled, the node has closed that connection and keeps it no longer. With none got it
-- returns nothing.
pub accept_peer-IsHandedOver {ℓ} :
    {W : Type ℓ} (wait : Session × W → Option ℕ × (Session × W)) (cancelled : Bool) (addr : String)
    (fp : Bytes) (l : Life) (w : W)
    → Reach (opened addr fp) l
    → Awaits l (wait (l.session, w)).0 (wait (l.session, w)).1.0
    → IsHandedOver
        (wait (l.session, w)).0
        (accept_peer wait cancelled (l.session, w)).0
        (accept_peer wait cancelled (l.session, w)).1.0
unfolding accept_peer
accept_peer-IsHandedOver wait cancelled addr fp l w reached awaits =
    let got = (wait (l.session, w)).0 in
    subst
      (λ s. IsHandedOver got (accept_resumes got cancelled s).0 (accept_resumes got cancelled s).1)
      (sym awaits.session_is)
      (accept_resumes-IsHandedOver addr fp cancelled got awaits.after
        (Reach-trans reached awaits.reach) awaits.got_is)
