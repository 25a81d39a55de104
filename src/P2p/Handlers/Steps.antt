-- ===== src/P2p/Handlers/Steps.antt =====
-- A run of `_setup` of p2p/node.py as a sequence of steps of its session's life.
use uniconn.Prelude.{ℕ, ◌⊎◌, ◌<◌, ◌≡◌, refl, String, true, Option, none, some}
use uniconn.Outcome.{◌>>=◌, Outcome, ok, raised, pending, Exn}
use uniconn.Action.{Action, continue}
use uniconn.P2p.Session.{Session, setup_starts, setup_dialed, setup_operated}
use uniconn.P2p.Session.Life.{
  Phase, unborn, opening, ready, dropped, Life, phase_by, dials, operates, here,
}
use uniconn.P2p.Session.Life.Kept.{is_owned}
use uniconn.P2p.Handlers.{run_operated, run_dialed}
use uniconn.P2p.Handlers.Goes.{IsFresh, dialed_below, Goes, goes_on, stepped, weaker}

-- What has become of the connection `raw` of a run: it is set up, or given up, or, while the run
-- goes on, still the session's.
abbrev pub RunEnd : {A : Type 0} → ℕ → Outcome (ℕ × A) → Life → Type 0
RunEnd raw (ok (raw', a)) l = (raw' ≡ raw) × (l.phase raw ≡ ready)
RunEnd raw (raised e) l = l.phase raw ≡ dropped
RunEnd raw pending l = is_owned (l.phase raw) ≡ true

-- What a dial returned is a new connection.
abbrev pub NewOne : Outcome ℕ → Life → ℕ → Type 0
NewOne (ok raw) l n = (l.phase raw ≡ unborn) × (raw < n)
NewOne _ l n = Unit

-- A connection whose run has ended.
abbrev pub IsDone : Phase → Type 0
IsDone phase = (phase ≡ ready) ⊎ (phase ≡ dropped)

-- What is awaited is steps of the session's life: dialling makes a new connection, and an operation
-- leaves the connection that it is about to its run; and other tasks leave alone what a run has set
-- up or given up.
pub record IsWorld {ℓ} {W : Type ℓ} {A : Type 0} (fresh : W → ℕ)
    (dial : String → Action (Session × W) ℕ) (meanwhile : Session × W → Session × W)
    (operation : ℕ → Action (Session × W) A) : Type ℓ where
  pub dialling :
      (l : Life) (addr : String) (w : W)
      → IsFresh l (fresh w)
      → Goes fresh l
          (dial addr (l.session, w)).1
          (λ m. NewOne (dial addr (l.session, w)).0 m (fresh (dial addr (l.session, w)).1.1))
  pub operating :
      (l : Life) (raw : ℕ) (w : W)
      → IsFresh l (fresh w)
      → l.phase raw ≡ opening
      → Goes fresh l (operation raw (l.session, w)).1 (λ m. m.phase raw ≡ opening)
  pub resuming :
      (l : Life) (w : W)
      → IsFresh l (fresh w)
      → Goes fresh l
          (meanwhile (l.session, w))
          (λ m. (raw : ℕ) → IsDone (l.phase raw) → m.phase raw ≡ l.phase raw)

module _ {ℓ} {W : Type ℓ} (fresh : W → ℕ) where
  -- The last piece of a run.
  operated :
      (l : Life) (raw : ℕ) (result : Option Exn) (w : W)
      → IsFresh l (fresh w)
      → l.phase raw ≡ opening
      → Goes fresh l
          ((setup_operated raw result l.session).1, w)
          (λ m. m.phase raw ≡ phase_by ready (setup_operated raw result l.session).0)
  operated l raw result w new open_one =
      stepped fresh l raw w _ _ new (dialed_below l (fresh w) raw new λ e. cc)
        (operates raw result open_one refl)

  module _ {A : Type 0} where
    kept_result :
        (l : Life) (raw : ℕ) (a : A) (r : Outcome (Unit {0})) (x : Session × W)
        → Goes fresh l x (λ m. m.phase raw ≡ phase_by ready r)
        → Goes fresh l
            (continue {B = ℕ × A} r (λ _ y. (ok (raw, a), y)) x).1
            (RunEnd raw (continue {B = ℕ × A} r (λ _ y. (ok (raw, a), y)) x).0)
    kept_result l raw a (ok _) x g = weaker fresh l x _ _ g (λ m e. (refl, e))
    kept_result l raw a (raised e) x g = g
    kept_result l raw a pending x g = weaker fresh l x _ _ g (λ m e. rw e refl)

    run_operated-Goes :
        (l : Life) (raw : ℕ) (w : W) (r : Outcome A)
        → IsFresh l (fresh w)
        → l.phase raw ≡ opening
        → Goes fresh l
            (run_operated raw r (l.session, w)).1
            (RunEnd raw (run_operated raw r (l.session, w)).0)
    unfolding run_operated
    run_operated-Goes l raw w (ok a) new open_one =
        kept_result l raw a (setup_operated raw none l.session).0 _
          (operated l raw none w new open_one)
    run_operated-Goes l raw w (raised e) new open_one =
        unfold setup_operated in operated l raw (some e) w new open_one
    run_operated-Goes l raw w pending new open_one = record {
      after = l;
      reach = here;
      session_is = refl;
      fresh_is = new;
      holds = rw open_one refl;
    }

    module _ (dial : String → Action (Session × W) ℕ) (meanwhile : Session × W → Session × W)
        (operation : ℕ → Action (Session × W) A)
        (world : IsWorld fresh dial meanwhile operation) where
      operation-Goes :
          (l : Life) (raw : ℕ) (w : W)
          → IsFresh l (fresh w)
          → l.phase raw ≡ opening
          → let x = operation raw (l.session, w) in
            Goes fresh l (run_operated raw x.0 x.1).1 (RunEnd raw (run_operated raw x.0 x.1).0)
      operation-Goes l raw w new open_one =
          goes_on fresh l _ _ (run_operated raw (operation raw (l.session, w)).0) (RunEnd raw)
            (world.operating l raw w new open_one) (λ m new' e. run_operated-Goes m raw _ _ new' e)

      opened_one :
          (l : Life) (raw : ℕ) (r : Outcome (Unit {0})) (x : Session × W)
          → Goes fresh l x (λ m. m.phase raw ≡ phase_by opening r)
          → let k : Action (Session × W) (ℕ × A) =
              λ y. run_operated raw (operation raw y).0 (operation raw y).1 in
            Goes fresh l (continue r (λ _. k) x).1 (RunEnd raw (continue r (λ _. k) x).0)
      opened_one l raw (ok _) x g =
          goes_on fresh l x _ (λ y. run_operated raw (operation raw y).0 (operation raw y).1)
            (RunEnd raw) g (λ m new e. operation-Goes m raw x.1 new e)
      opened_one l raw (raised e) x g = g
      opened_one l raw pending x g = weaker fresh l x _ _ g (λ m e. rw e refl)

      pub run_dialed-Goes :
          (l : Life) (raw : ℕ) (w : W)
          → IsFresh l (fresh w)
          → l.phase raw ≡ unborn
          → raw < fresh w
          → Goes fresh l
              (run_dialed dial operation raw (l.session, w)).1
              (RunEnd raw (run_dialed dial operation raw (l.session, w)).0)
      unfolding run_dialed
      run_dialed-Goes l raw w new born below =
          opened_one l raw (setup_dialed raw l.session).0 _
            (stepped fresh l raw w _ _ new below (dials raw born refl))

-- What the run of a session at `s` dials.
abbrev pub dialled {ℓ} : {W : Type ℓ} → (String → Action (Session × W) ℕ) → Session → W → Outcome ℕ
dialled dial s w = setup_starts s >>= λ _. (dial s.addr (s, w)).0

abbrev pub IsRaised : {A : Type 0} → Outcome A → Type 0
IsRaised (raised e) = Unit
IsRaised _ = ⊥

abbrev pub IsPending : {A : Type 0} → Outcome A → Type 0
IsPending pending = Unit
IsPending _ = ⊥

-- What a handler has left behind, by what it dialled and by what it came back with.
abbrev pub Left :
    {A : Type 0} → (ℕ → Outcome A → Life → Type 0) → Outcome ℕ → Outcome A → Life → Type 0
Left End (ok raw) r l = End raw r l
Left End (raised e) r l = IsRaised r
Left End pending r l = IsPending r
