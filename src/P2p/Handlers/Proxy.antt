-- ===== src/P2p/Handlers/Proxy.antt =====
-- What `_accept_relay_proxy` of p2p/node.py leaves of the connection that it dialled.
use uniconn.Prelude.{ℕ, ◌<◌, ◌≡◌, ◌⊎◌, inl, inr, refl, sym, subst, String, true}
use uniconn.Outcome.{Outcome, ok, raised, pending}
use uniconn.Action.{Action, continue}
use uniconn.Struct.{Bytes}
use uniconn.Json.{Json}
use uniconn.P2p.Operations.{requester_fingerprint}
use uniconn.P2p.Session.{Session, queue_incoming}
use uniconn.P2p.Session.Life.{ready, queued, dropped, Life, Reach, queues}
use uniconn.P2p.Session.Life.Kept.{is_owned, times}
use uniconn.P2p.Session.Life.Ownership.{opened, Reach-IsOwned}
use uniconn.P2p.Handlers.{Waited, accept_relay_proxy}
use uniconn.P2p.Handlers.Waits.{in_gap, SetupEnd}
use uniconn.P2p.Handlers.Goes.{Reach-trans, IsFresh, dialed_below, Goes, goes_on, stepped, weaker}
use uniconn.P2p.Handlers.Steps.{IsWorld, dialled, Left}
use uniconn.P2p.Handlers.Ownership.{setup-Goes}
use uniconn.P2p.Handlers.Settled.{owned_lem}

-- The connection, if one was dialled, is the session's or was given up.
abbrev pub IsHeld : Outcome ℕ → Life → Type 0
IsHeld (ok raw) l = (is_owned (l.phase raw) ≡ true) ⊎ (l.phase raw ≡ dropped)
IsHeld _ l = Unit

-- The same, at a session.
abbrev pub IsKeptOrShut : Outcome ℕ → Session → Type 0
IsKeptOrShut (ok raw) s = (times raw s.pending_set ≡ 1) ⊎ (0 < times raw s.shut)
IsKeptOrShut _ s = Unit

given_up :
    (l : Life) (raw : ℕ) (waited : Waited)
    → (l.phase raw ≡ dropped) ⊎ ((in_gap waited ≡ true) × (l.phase raw ≡ ready))
    → IsHeld (ok raw) l
given_up l raw waited (inl h) = inr h
given_up l raw waited (inr h) = inl (rw (h.1) refl)

module _ {ℓ} {W : Type ℓ} (fresh : W → ℕ) {A : Type 0} where
  abbrev queue_up : ℕ × A → Action (Session × W) (Unit {0})
  queue_up (raw, conn) (s, w) = (ok tt, (queue_incoming raw s, w))

  queue_up-Goes :
      (raw raw' : ℕ) (conn : A) (l : Life) (w : W)
      → IsFresh l (fresh w)
      → raw' ≡ raw
      → l.phase raw ≡ ready
      → Goes fresh l (queue_up (raw', conn) (l.session, w)).1 (IsHeld (ok raw))
  queue_up-Goes raw raw' conn l w new same is_ready =
      subst (λ t. Goes fresh l (queue_up (t, conn) (l.session, w)).1 (IsHeld (ok raw))) (sym same)
        (weaker fresh l _ _ _
          (stepped fresh l raw w _ queued new (dialed_below l (fresh w) raw new λ e. cc)
            (queues raw is_ready refl))
          (λ m e. inl (rw e refl)))

  set_up-IsHeld :
      (waited : Waited) (l : Life) (d : Outcome ℕ) (r : Outcome (ℕ × A)) (x : Session × W)
      → Goes fresh l x (Left (SetupEnd waited) d r)
      → Goes fresh l (continue r queue_up x).1 (IsHeld d)
  set_up-IsHeld waited l (ok raw) (ok (raw', conn)) x g =
      goes_on fresh l x _ (queue_up (raw', conn)) (λ o. IsHeld (ok raw)) g
        (λ m new h. queue_up-Goes raw raw' conn m x.1 new h.0 h.1)
  set_up-IsHeld waited l (ok raw) (raised e) x g =
      weaker fresh l x _ _ g (λ m h. given_up m raw waited h)
  set_up-IsHeld waited l (ok raw) pending x g = weaker fresh l x _ _ g (λ m h. inl h)
  set_up-IsHeld waited l (raised e) (ok a) x g = absurd g.holds
  set_up-IsHeld waited l (raised e) (raised e') x g = weaker fresh l x _ _ g (λ m h. tt)
  set_up-IsHeld waited l (raised e) pending x g = weaker fresh l x _ _ g (λ m h. tt)
  set_up-IsHeld waited l pending (ok a) x g = absurd g.holds
  set_up-IsHeld waited l pending (raised e) x g = weaker fresh l x _ _ g (λ m h. tt)
  set_up-IsHeld waited l pending pending x g = weaker fresh l x _ _ g (λ m h. tt)

held-IsKeptOrShut :
    (addr : String) (fp : Bytes) (d : Outcome ℕ) (l : Life)
    → Reach (opened addr fp) l
    → IsHeld d l
    → IsKeptOrShut d l.session
held-IsKeptOrShut addr fp (ok raw) l r (inl owned) =
    owned_lem raw l.session (l.phase raw) ((Reach-IsOwned addr fp r).keeps raw) owned
held-IsKeptOrShut addr fp (ok raw) l r (inr gone) =
    inr (((Reach-IsOwned addr fp r).keeps raw).closed_if_dropped gone)
held-IsKeptOrShut addr fp (raised e) l r h = tt
held-IsKeptOrShut addr fp pending l r h = tt

-- Of `_accept_relay_proxy` for a payload with a fingerprint of the right size, on a session in any
-- state that its steps lead to, while other tasks of the node take any steps at its awaits: the
-- connection that it dialled is afterwards in the session's pending set, or the node has closed it,
-- also where the exception was logged and not passed on.
pub accept_relay_proxy-IsKeptOrShut {ℓ} :
    {W : Type ℓ} {A : Type 0} (fresh : W → ℕ) (dial : String → Action (Session × W) ℕ)
    (meanwhile : Session × W → Session × W) (operation : Json → Bytes → ℕ → Action (Session × W) A)
    (waited : Waited) (payload : Json) (requester_fp : Bytes) (addr : String) (fp : Bytes)
    (l : Life) (w : W)
    → requester_fingerprint payload ≡ ok requester_fp
    → IsWorld fresh dial meanwhile (operation payload requester_fp)
    → Reach (opened addr fp) l
    → IsFresh l (fresh w)
    → IsKeptOrShut
        (dialled dial l.session w)
        (accept_relay_proxy dial meanwhile operation waited payload (l.session, w)).1.0
unfolding accept_relay_proxy
accept_relay_proxy-IsKeptOrShut fresh dial meanwhile operation waited payload requester_fp addr fp l
      w asked world reached new =
    let g =
      set_up-IsHeld fresh waited l _ _ _
        (setup-Goes fresh dial meanwhile (operation payload requester_fp) world waited l w new) in
    rw asked (
      subst (IsKeptOrShut (dialled dial l.session w)) (sym g.session_is) (
        held-IsKeptOrShut addr fp (dialled dial l.session w) g.after (Reach-trans reached g.reach)
          g.holds))
