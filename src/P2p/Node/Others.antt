-- ===== src/P2p/Node/Others.antt =====
-- What other tasks of a node of p2p/node.py do while a `connect_relay` has the lock.
use uniconn.Prelude.{◌≡◌, refl, ap, ◌∙◌}
use uniconn.P2p.Node.{Node, control_lost, close, close_ends}
use uniconn.P2p.Node.Lifecycle.{
  IsOver, NodeStep, connect_starts, connect_goes_on, connect_gives_up, connect_raises, connect_done,
  control_fails, works, closes, close_done, NodeReach, here, later, stop-IsOver, drain-IsOver,
  work-IsOver,
}

pub NodeReach-trans : {n m k : Node} → NodeReach n m → NodeReach m k → NodeReach n k
NodeReach-trans r here = r
NodeReach-trans r (later q st) = later (NodeReach-trans r q) st

-- A step that is not one of `connect_relay`.
abbrev pub IsOther : {n m : Node} → NodeStep n m → Type 0
IsOther (control_fails reason e) = Unit
IsOther (works l k p st e) = Unit
IsOther (closes e) = Unit
IsOther (close_done e) = Unit
IsOther _ = ⊥

pub data OtherReach (n : Node) : Node → Type 0 where
  none_yet : OtherReach n n
  another : {m k : Node} → OtherReach n m → (st : NodeStep m k) → IsOther st → OtherReach n k

pub OtherReach-trans : {n m k : Node} → OtherReach n m → OtherReach m k → OtherReach n k
OtherReach-trans r none_yet = r
OtherReach-trans r (another q st o) = another (OtherReach-trans r q) st o

pub OtherReach-NodeReach : {n m : Node} → OtherReach n m → NodeReach n m
OtherReach-NodeReach none_yet = here
OtherReach-NodeReach (another r st o) = later (OtherReach-NodeReach r) st

other-connecting : (n m : Node) (st : NodeStep n m) → IsOther st → m.connecting ≡ n.connecting
unfolding control_lost close close_ends
other-connecting n m (connect_starts addr fp e) o = absurd o
other-connecting n m (connect_goes_on addr fp p e) o = absurd o
other-connecting n m (connect_gives_up e) o = absurd o
other-connecting n m (connect_raises e) o = absurd o
other-connecting n m (connect_done addr fp raw e) o = absurd o
other-connecting n m (control_fails reason e) o = ap (λ (k : Node). k.connecting) e
other-connecting n m (works l k p st e) o = ap (λ (k : Node). k.connecting) e
other-connecting n m (closes e) o = ap (λ (k : Node). k.connecting) e
other-connecting n m (close_done e) o = ap (λ (k : Node). k.connecting) e

other-IsOver : (n m : Node) (st : NodeStep n m) → IsOther st → IsOver n.session → IsOver m.session
unfolding control_lost close close_ends
other-IsOver n m (connect_starts addr fp e) o h = absurd o
other-IsOver n m (connect_goes_on addr fp p e) o h = absurd o
other-IsOver n m (connect_gives_up e) o h = absurd o
other-IsOver n m (connect_raises e) o h = absurd o
other-IsOver n m (connect_done addr fp raw e) o h = absurd o
other-IsOver n m (control_fails reason e) o h = rw e (stop-IsOver reason n.session)
other-IsOver n m (works l k p st e) o h = rw e (work-IsOver n.session l k p st h)
other-IsOver n m (closes e) o h = rw e (stop-IsOver _ n.session)
other-IsOver n m (close_done e) o h = rw e (drain-IsOver n.session h)

-- What the other tasks leave as it is.
pub OtherReach-connecting : {n m : Node} → OtherReach n m → m.connecting ≡ n.connecting
OtherReach-connecting none_yet = refl
OtherReach-connecting (another {m} {k} r st o) = other-connecting m k st o ∙ OtherReach-connecting r

pub OtherReach-IsOver : {n m : Node} → OtherReach n m → IsOver n.session → IsOver m.session
OtherReach-IsOver none_yet h = h
OtherReach-IsOver (another {m} {k} r st o) h = other-IsOver m k st o (OtherReach-IsOver r h)
