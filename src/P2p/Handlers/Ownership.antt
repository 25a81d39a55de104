-- ===== src/P2p/Handlers/Ownership.antt =====
-- What the handlers of p2p/node.py leave of the connection that they dialled.
use uniconn.Prelude.{Bool-cases, ◌⊎◌, inl, inr, ℕ, ◌≡◌, refl, sym, ◌∙◌, subst, String, true}
use uniconn.Outcome.{◌>>=◌, Outcome, ok, raised, pending}
use uniconn.Action.{Action, continue}
use uniconn.P2p.Session.{Session, set_error, setup_starts, dial_returns}
use uniconn.P2p.Session.Life.{ready, returned, dropped, Life, phase_by, here, hands_over}
use uniconn.P2p.Session.Life.Kept.{is_owned}
use uniconn.P2p.Handlers.Waits.{in_gap, SetupEnd, setup_returns-Left}
use uniconn.P2p.Handlers.{Waited, run_dialed, run, resumed, setup, dial_peer}
use uniconn.P2p.Handlers.Goes.{IsFresh, dialed_below, Goes, goes_on, stepped, weaker}
use uniconn.P2p.Handlers.Steps.{
  RunEnd, NewOne, IsDone, IsWorld, run_dialed-Goes, dialled, IsPending, Left,
}

module _ {ℓ} {W : Type ℓ} (fresh : W → ℕ) {A : Type 0} (dial : String → Action (Session × W) ℕ)
    (meanwhile : Session × W → Session × W) (operation : ℕ → Action (Session × W) A)
    (world : IsWorld fresh dial meanwhile operation) where
  unmoved :
      (l : Life) (w : W) {Q : Life → Type 0}
      → IsFresh l (fresh w)
      → Q l
      → Goes fresh l (l.session, w) Q
  unmoved l w new h = record {
    after = l;
    reach = here;
    session_is = refl;
    fresh_is = new;
    holds = h;
  }

  -- Behind the dial.
  dialed-Goes :
      (l : Life) (d : Outcome ℕ) (x : Session × W)
      → Goes fresh l x (λ m. NewOne d m (fresh x.1))
      → Goes fresh l
          (continue d (run_dialed dial operation) x).1
          (Left RunEnd d (continue d (run_dialed dial operation) x).0)
  dialed-Goes l (ok raw) x g =
      goes_on fresh l x _ (run_dialed dial operation raw) (RunEnd raw) g
        (λ m new h. run_dialed-Goes fresh dial meanwhile operation world m raw x.1 new h.0 h.1)
  dialed-Goes l (raised e) x g = weaker fresh l x _ _ g (λ m h. tt)
  dialed-Goes l pending x g = weaker fresh l x _ _ g (λ m h. tt)

  started-Goes :
      (l : Life) (w : W) (r : Outcome (Unit {0}))
      → IsFresh l (fresh w)
      → let k : Action (Session × W) (ℕ × A) = λ y.
        continue (dial l.session.addr y).0 (run_dialed dial operation) (dial l.session.addr y).1 in
        Goes fresh l (continue r (λ _. k) (l.session, w)).1 (
          Left RunEnd
            (r >>= λ _. (dial l.session.addr (l.session, w)).0)
            (continue r (λ _. k) (l.session, w)).0)
  started-Goes l w (ok _) new = dialed-Goes l _ _ (world.dialling l l.session.addr w new)
  started-Goes l w (raised e) new = unmoved l w new tt
  started-Goes l w pending new = unmoved l w new tt

  -- The run of a session leaves the connection that it dialled set up, or given up, or its own still.
  run-Goes :
      (l : Life) (w : W)
      → IsFresh l (fresh w)
      → Goes fresh l
          (run dial operation (l.session, w)).1
          (Left RunEnd (dialled dial l.session w) (run dial operation (l.session, w)).0)
  unfolding run
  run-Goes l w new = started-Goes l w (setup_starts l.session) new

-- The same is left while other tasks leave alone what a run has set up or given up.
kept-Left :
    {A : Type 0} (d : Outcome ℕ) (r : Outcome (ℕ × A)) (m m' : Life)
    → (IsPending r → ⊥)
    → ((raw : ℕ) → IsDone (m.phase raw) → m'.phase raw ≡ m.phase raw)
    → Left RunEnd d r m
    → Left RunEnd d r m'
kept-Left (ok raw) (ok (raw', a)) m m' ends q h = (h.0, q raw (inl h.1) ∙ h.1)
kept-Left (ok raw) (raised e) m m' ends q h = q raw (inr h) ∙ h
kept-Left (ok raw) pending m m' ends q h = absurd (ends tt)
kept-Left (raised x) r m m' ends q h = h
kept-Left pending r m m' ends q h = h

-- What `dial_peer` has made of the connection `raw` that it dialled.
abbrev pub PeerEnd : Waited → {A : Type 0} → ℕ → Outcome (ℕ × A) → Life → Type 0
PeerEnd waited raw (ok (raw', a)) l = (raw' ≡ raw) × (l.phase raw ≡ returned)
PeerEnd waited raw (raised e) l =
    (l.phase raw ≡ dropped) ⊎ ((in_gap waited ≡ true) × (l.phase raw ≡ ready))
PeerEnd waited raw pending l = is_owned (l.phase raw) ≡ true

module _ {ℓ} {W : Type ℓ} (fresh : W → ℕ) {A : Type 0} (dial : String → Action (Session × W) ℕ)
    (meanwhile : Session × W → Session × W) (operation : ℕ → Action (Session × W) A)
    (world : IsWorld fresh dial meanwhile operation) where
  resumed-Goes :
      (l : Life) (d : Outcome ℕ) (r : Outcome (ℕ × A)) (x : Session × W)
      → (IsPending r → ⊥)
      → Goes fresh l x (Left RunEnd d r)
      → Goes fresh l (meanwhile x) (Left RunEnd d r)
  resumed-Goes l d r x ends g =
      goes_on fresh l x _ (λ y. (r, meanwhile y)) (Left RunEnd d) g
        (λ m new h.
          weaker fresh m _ _ _ (world.resuming m x.1 new) (λ m' q. kept-Left d r m m' ends q h))

  set_down-Goes :
      (l : Life) (d : Outcome ℕ) (r : Outcome (ℕ × A)) (x : Session × W)
      → Goes fresh l x (Left RunEnd d r)
      → Goes fresh l (resumed dial meanwhile r x) (Left RunEnd d r)
  set_down-Goes l d pending x g = g
  set_down-Goes l d (ok a) x g = resumed-Goes l d (ok a) x (λ p. p) g
  set_down-Goes l d (raised e) x g = resumed-Goes l d (raised e) x (λ p. p) g

  pub setup-Goes :
      (waited : Waited) (l : Life) (w : W)
      → IsFresh l (fresh w)
      → Goes fresh l (setup dial meanwhile operation waited (l.session, w)).1 (
          Left
            (SetupEnd waited)
            (dialled dial l.session w)
            (setup dial meanwhile operation waited (l.session, w)).0)
  unfolding setup
  setup-Goes waited l w new =
      weaker fresh l _ _ _
        (set_down-Goes l _ _ _ (run-Goes fresh dial meanwhile operation world l w new))
        (λ m h. setup_returns-Left waited _ (dialled dial l.session w) _ m h)

  abbrev hand_over : ℕ × A → Action (Session × W) (ℕ × A)
  hand_over (raw, conn) (s, w) =
      continue (dial_returns raw s).0 (λ _ y. (ok (raw, conn), y)) ((dial_returns raw s).1, w)

  handed_over :
      (waited : Waited) (raw : ℕ) (conn : A) (r : Outcome ℕ) (l : Life) (x : Session × W)
      → (IsPending r → ⊥)
      → Goes fresh l x (λ m. m.phase raw ≡ phase_by returned r)
      → let k : ℕ → Action (Session × W) (ℕ × A) = λ _ y. (ok (raw, conn), y) in
        Goes fresh l (continue r k x).1 (PeerEnd waited raw (continue r k x).0)
  handed_over waited raw conn (ok raw') l x ends g = weaker fresh l x _ _ g (λ m e. (refl, e))
  handed_over waited raw conn (raised e) l x ends g = weaker fresh l x _ _ g (λ m h. inl h)
  handed_over waited raw conn pending l x ends g = absurd (ends tt)

  dial_returns-ends : (raw : ℕ) (s : Session) → IsPending (dial_returns raw s).0 → ⊥
  unfolding dial_returns
  dial_returns-ends raw s = elim (Bool-cases (set_error s.error)) [
    | inl h ↦ rw h (λ p. p)
    | inr h ↦ rw h (λ p. p)
  ]

  hand_over-Goes :
      (waited : Waited) (raw raw' : ℕ) (conn : A) (l : Life) (w : W)
      → IsFresh l (fresh w)
      → raw' ≡ raw
      → l.phase raw ≡ ready
      → Goes fresh l
          (hand_over (raw', conn) (l.session, w)).1
          (PeerEnd waited raw (hand_over (raw', conn) (l.session, w)).0)
  hand_over-Goes waited raw raw' conn l w new same is_ready =
      subst
        (λ t.
          Goes fresh l (hand_over (t, conn) (l.session, w)).1
            (PeerEnd waited raw (hand_over (t, conn) (l.session, w)).0))
        (sym same)
        (handed_over waited raw conn (dial_returns raw l.session).0 l _
          (dial_returns-ends raw l.session)
          (stepped fresh l raw w _ _ new (dialed_below l (fresh w) raw new λ e. cc)
            (hands_over raw is_ready refl)))

  set_up-Goes :
      (waited : Waited) (l : Life) (d : Outcome ℕ) (r : Outcome (ℕ × A)) (x : Session × W)
      → Goes fresh l x (Left (SetupEnd waited) d r)
      → Goes fresh l (continue r hand_over x).1 (Left (PeerEnd waited) d (continue r hand_over x).0)
  set_up-Goes waited l (ok raw) (ok (raw', conn)) x g =
      goes_on fresh l x _ (hand_over (raw', conn)) (PeerEnd waited raw) g
        (λ m new h. hand_over-Goes waited raw raw' conn m x.1 new h.0 h.1)
  set_up-Goes waited l (ok raw) (raised e) x g = g
  set_up-Goes waited l (ok raw) pending x g = g
  set_up-Goes waited l (raised e) (ok a) x g = absurd g.holds
  set_up-Goes waited l (raised e) (raised e') x g = g
  set_up-Goes waited l (raised e) pending x g = g
  set_up-Goes waited l pending (ok a) x g = absurd g.holds
  set_up-Goes waited l pending (raised e) x g = g
  set_up-Goes waited l pending pending x g = g

  pub dial_peer-Goes :
      (waited : Waited) (l : Life) (w : W)
      → IsFresh l (fresh w)
      → Goes fresh l (dial_peer dial meanwhile operation waited (l.session, w)).1 (
          Left
            (PeerEnd waited)
            (dialled dial l.session w)
            (dial_peer dial meanwhile operation waited (l.session, w)).0)
  unfolding dial_peer
  dial_peer-Goes waited l w new = set_up-Goes waited l _ _ _ (setup-Goes waited l w new)
