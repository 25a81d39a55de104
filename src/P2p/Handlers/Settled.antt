-- ===== src/P2p/Handlers/Settled.antt =====
-- What `dial_peer` of p2p/node.py leaves to the node and to its caller.
use uniconn.Prelude.{
  ℕ, ◌<◌, ◌≡◌, ◌⊎◌, inl, inr, refl, sym, ap, ◌∙◌, subst, String, true, false, Bool-cases,
}
use uniconn.Outcome.{Outcome, ok, raised, pending}
use uniconn.Action.{Action}
use uniconn.Struct.{Bytes}
use uniconn.P2p.Session.{Session, set_error}
use uniconn.P2p.Session.Life.{Phase, Life, Reach}
use uniconn.P2p.Session.Life.Kept.{is_owned, times, IsKept, IsEnded}
use uniconn.P2p.Session.Life.Ownership.{IsOwned, opened, Reach-IsOwned}
use uniconn.P2p.Handlers.{Waited, dial_peer}
use uniconn.P2p.Handlers.Waits.{in_gap}
use uniconn.P2p.Handlers.Goes.{Reach-trans, IsFresh}
use uniconn.P2p.Handlers.Steps.{IsWorld, dialled, IsRaised, IsPending, Left}
use uniconn.P2p.Handlers.Ownership.{PeerEnd, dial_peer-Goes}

-- The connection that `dial_peer` dialled, if it did: returned, and neither closed by the node nor in
-- its pending set; or closed, and out of that set, but for a `wait_for` that lost the result of the
-- run, which leaves it in that set or closed; or, while the handler waits, in that set or closed.
abbrev pub IsSettled : {A : Type 0} → Waited → Outcome ℕ → Outcome (ℕ × A) → Session → Type 0
IsSettled waited (ok raw) (ok (raw', conn)) s =
    (raw' ≡ raw) × (times raw s.shut ≡ 0) × (times raw s.pending_set ≡ 0)
IsSettled waited (ok raw) (raised e) s =
    ((0 < times raw s.shut) × (times raw s.pending_set ≡ 0))
    ⊎ ((in_gap waited ≡ true) × ((times raw s.pending_set ≡ 1) ⊎ (0 < times raw s.shut)))
IsSettled waited (ok raw) pending s = (times raw s.pending_set ≡ 1) ⊎ (0 < times raw s.shut)
IsSettled waited (raised e) r s = IsRaised r
IsSettled waited pending r s = IsPending r

pub unowned_lem :
    (raw : ℕ) (s : Session) (phase : Phase)
    → IsEnded s
    → IsKept raw s phase
    → is_owned phase ≡ false
    → times raw s.pending_set ≡ 0
unowned_lem raw s phase ends kept out = elim (Bool-cases (set_error s.error)) [
  | inl over ↦ ap (times raw) (ends.released over)
  | inr running ↦ kept.pending_while running ∙ rw out refl
]

pub owned_lem :
    (raw : ℕ) (s : Session) (phase : Phase)
    → IsKept raw s phase
    → is_owned phase ≡ true
    → (times raw s.pending_set ≡ 1) ⊎ (0 < times raw s.shut)
owned_lem raw s phase kept owned = elim (Bool-cases (set_error s.error)) [
  | inl over ↦ inr (kept.closed_after over owned)
  | inr running ↦ inl (kept.pending_while running ∙ rw owned refl)
]

Left-IsSettled :
    {A : Type 0} (waited : Waited) (d : Outcome ℕ) (r : Outcome (ℕ × A)) (l : Life)
    → IsOwned l
    → Left (PeerEnd waited) d r l
    → IsSettled waited d r l.session
Left-IsSettled waited (ok raw) (ok (raw', conn)) l h (same, phase) = (
  same,
  (h.keeps raw).left_alone phase,
  unowned_lem raw l.session (l.phase raw) h.ends (h.keeps raw) (rw phase refl),
)
Left-IsSettled waited (ok raw) (raised e) l h (inl phase) = inl (
  (h.keeps raw).closed_if_dropped phase,
  unowned_lem raw l.session (l.phase raw) h.ends (h.keeps raw) (rw phase refl),
)
Left-IsSettled waited (ok raw) (raised e) l h (inr (gap, phase)) =
    inr (gap, owned_lem raw l.session (l.phase raw) (h.keeps raw) (rw phase refl))
Left-IsSettled waited (ok raw) pending l h owned =
    owned_lem raw l.session (l.phase raw) (h.keeps raw) owned
Left-IsSettled waited (raised e) r l h end = end
Left-IsSettled waited pending r l h end = end

-- Of `dial_peer` on a session in any state that its steps lead to, while other tasks of the node
-- take any steps at its awaits that leave the connection of this call alone, and a dial makes a new
-- connection: if it returns a peer, the connection under it is the one that was dialled, which the
-- node has not closed, and which is out of the pending set; if it raises an exception, the node has
-- closed the connection that was dialled and keeps it no longer, but for a cancel or a timeout that
-- came between the end of `run` and the resumption of `wait_for`, after which it may also still be in
-- the pending set; while the call waits, the connection is in the pending set or closed; and without
-- a connection dialled it raises an exception or waits as the dial does.
pub dial_peer-IsSettled {ℓ} :
    {W : Type ℓ} {A : Type 0} (fresh : W → ℕ) (dial : String → Action (Session × W) ℕ)
    (meanwhile : Session × W → Session × W) (operation : ℕ → Action (Session × W) A)
    (waited : Waited) (addr : String) (fp : Bytes) (l : Life) (w : W)
    → IsWorld fresh dial meanwhile operation
    → Reach (opened addr fp) l
    → IsFresh l (fresh w)
    → IsSettled waited
        (dialled dial l.session w)
        (dial_peer dial meanwhile operation waited (l.session, w)).0
        (dial_peer dial meanwhile operation waited (l.session, w)).1.0
dial_peer-IsSettled fresh dial meanwhile operation waited addr fp l w world reached new =
    let g = dial_peer-Goes fresh dial meanwhile operation world waited l w new in
    let owned = Reach-IsOwned addr fp (Reach-trans reached g.reach) in
    subst
      (IsSettled waited (dialled dial l.session w)
        (dial_peer dial meanwhile operation waited (l.session, w)).0)
      (sym g.session_is) (Left-IsSettled waited _ _ g.after owned g.holds)
