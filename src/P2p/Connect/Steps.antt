-- ===== src/P2p/Connect/Steps.antt =====
-- `setup` of P2p/Handlers as steps of a node, other than those of `connect_relay`.
use uniconn.Prelude.{ℕ, refl, String, none, some, Option}
use uniconn.Outcome.{Outcome, ok, raised, pending, Exn}
use uniconn.Action.{Action, continue, ◌>>=◌, lift}
use uniconn.P2p.Session.{Session, setup_starts, setup_dialed, setup_operated}
use uniconn.P2p.Session.Life.{unborn, opening, Life, Step, dials, operates}
use uniconn.P2p.Node.{Node}
use uniconn.P2p.Node.Lifecycle.{works}
use uniconn.P2p.Node.Others.{OtherReach, none_yet, another, OtherReach-trans}
use uniconn.P2p.Handlers.{Waited, on_session, run_operated, run_dialed, run, resumed, setup}
use uniconn.P2p.Connect.{whole}

-- A call that works on the session takes steps of other tasks only.
abbrev pub Keeps {ℓ} : {W : Type ℓ} {B : Type 0} → Action (Session × (Node × W)) B → Type ℓ
Keeps {W = W} m = (x : Session × (Node × W)) → OtherReach (whole x).0 (whole (m x).1).0

session-OtherReach :
    (l k : Life) (n : Node)
    → Step l k
    → OtherReach (record n { session = some l.session }) (record n { session = some k.session })
session-OtherReach l k n st = another none_yet (works l k refl st refl) tt

module _ {ℓ} {W : Type ℓ} where
  bind-Keeps :
      {B C : Type 0} (m : Action (Session × (Node × W)) B) (k : B → Action (Session × (Node × W)) C)
      → Keeps m
      → ((b : B) → Keeps (k b))
      → Keeps (m >>= k)
  bind-Keeps m k first rest x = onwards (m x).0 (m x).1 (first x)
    where
      onwards :
          (r : Outcome _) (y : Session × (Node × W))
          → OtherReach (whole x).0 (whole y).0
          → OtherReach (whole x).0 (whole (continue r k y).1).0
      onwards (ok b) y h = OtherReach-trans h (rest b y)
      onwards (raised e) y h = h
      onwards pending y h = h

  dialed-Keeps : (raw : ℕ) → Keeps (on_session {W = Node × W} (setup_dialed raw))
  dialed-Keeps raw (s, (n, w)) =
      session-OtherReach (record { session = s; phase = λ _. unborn }) _ n (dials raw refl refl)

  operated-Keeps :
      (raw : ℕ) (result : Option Exn)
      → Keeps (on_session {W = Node × W} (setup_operated raw result))
  operated-Keeps raw result (s, (n, w)) =
      session-OtherReach (record { session = s; phase = λ _. opening }) _ n
        (operates raw result refl refl)

  module _ {A : Type 0} where
    run_operated-Keeps : (raw : ℕ) (r : Outcome A) → Keeps (run_operated {W = Node × W} raw r)
    unfolding run_operated
    run_operated-Keeps raw (ok a) y =
        bind-Keeps (on_session (setup_operated raw none)) _ (operated-Keeps raw none)
          (λ _ x. none_yet) y
    run_operated-Keeps raw (raised e) y =
        bind-Keeps (on_session (setup_operated raw (some e))) _ (operated-Keeps raw (some e))
          (λ _ x. none_yet) y
    run_operated-Keeps raw pending y = none_yet

    module _ (dial : String → Action (Session × (Node × W)) ℕ)
        (meanwhile : Session × (Node × W) → Session × (Node × W))
        (operation : ℕ → Action (Session × (Node × W)) A)
        (dialling : (addr : String) → Keeps (dial addr))
        (operating : (raw : ℕ) → Keeps (operation raw))
        (resuming : (x : Session × (Node × W))
          → OtherReach (whole x).0 (whole (meanwhile x)).0) where
      run_dialed-Keeps : (raw : ℕ) → Keeps (run_dialed dial operation raw)
      unfolding run_dialed
      run_dialed-Keeps raw = bind-Keeps (on_session (setup_dialed raw)) _ (dialed-Keeps raw) (λ _ x.
          OtherReach-trans (operating raw x)
            (run_operated-Keeps raw (operation raw x).0 (operation raw x).1))

      run-Keeps : Keeps (run dial operation)
      unfolding run
      run-Keeps (s, (n, w)) =
          bind-Keeps (lift (setup_starts s)) _ (λ x. none_yet)
            (λ _. bind-Keeps (dial s.addr) _ (dialling s.addr) run_dialed-Keeps) (s, (n, w))

      resumed-Keeps :
          (r : Outcome (ℕ × A)) (x : Session × (Node × W))
          → OtherReach (whole x).0 (whole (resumed dial meanwhile r x)).0
      resumed-Keeps (ok a) x = resuming x
      resumed-Keeps (raised e) x = resuming x
      resumed-Keeps pending x = none_yet

      pub setup-Keeps : (waited : Waited) → Keeps (setup dial meanwhile operation waited)
      unfolding setup
      setup-Keeps waited x =
          OtherReach-trans (run-Keeps x)
            (resumed-Keeps (run dial operation x).0 (run dial operation x).1)
