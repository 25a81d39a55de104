-- ===== src/P2p/Connect/Ends.antt =====
-- What `connect_relay` of p2p/node.py may come to, and its first piece.
use uniconn.Prelude.{ℕ, ◌≡◌, ◌⊎◌, inl, inr, refl, String, none, some, Bool-cases, length, ◌==◌}
use uniconn.Outcome.{Outcome, ok, raised, pending}
use uniconn.Action.{Action}
use uniconn.Struct.{Bytes}
use uniconn.P2p.Session.{Session, new_session}
use uniconn.P2p.Node.{Node, is_running, create_session, connect_begins}
use uniconn.P2p.Node.Lifecycle.{IsOver, NodeReach, stop-IsOver}
use uniconn.P2p.Node.Others.{OtherReach}
use uniconn.P2p.Connect.{whole}
use uniconn.P2p.Connect.Steps.{Keeps}

-- What is awaited is steps of other tasks.
pub record IsNodeWorld {ℓ} {W : Type ℓ} {A : Type 0} (wait : Action (Node × W) (Unit {0}))
    (dial : String → Action (Session × (Node × W)) ℕ)
    (meanwhile : Session × (Node × W) → Session × (Node × W))
    (operation : ℕ → Action (Session × (Node × W)) A) : Type ℓ where
  pub waiting : (n : Node) (w : W) → OtherReach n (wait (n, w)).1.0
  pub dialling : (addr : String) → Keeps (dial addr)
  pub operating : (raw : ℕ) → Keeps (operation raw)
  pub resuming : (x : Session × (Node × W)) → OtherReach (whole x).0 (whole (meanwhile x)).0

-- A node that is connected, with `raw` under its control connection.
pub record IsConnected (addr : String) (fp : Bytes) (n : Node) : Type 0 where
  pub raw : ℕ
  pub session : Session
  pub has_session : n.session ≡ some session
  pub controls : session.control ≡ some raw
  pub control_conn : n.control_conn ≡ some raw
  pub relay_addr : n.relay_addr ≡ addr
  pub relay_fp : n.relay_fp ≡ fp
  pub alone : n.connecting ≡ none

-- By its result, what `connect_relay` has made of the node `n`.
abbrev pub Connects : String → Bytes → Node → Outcome (Unit {0}) → Node → Type 0
Connects addr fp n (ok _) m = IsConnected addr fp m
Connects addr fp n (raised e) m = (m ≡ n) ⊎ (IsOver m.session × (m.connecting ≡ none))
Connects addr fp n pending m = Unit

-- The node `m` was reached, with the result `r`.
abbrev pub Goes {ℓ} :
    {W : Type ℓ} → String → Bytes → Node → Node → Outcome (Unit {0}) × (Node × W) → Type 0
Goes addr fp n n₀ y = NodeReach n₀ y.1.0 × Connects addr fp n y.0 y.1.0

-- What the first piece of `connect_relay` comes to: the node as it was, or with its session stopped
-- and a new one to come, or with a new session.
abbrev pub Begins : String → Bytes → Node → Outcome (Unit {0}) × Node → Type 0
Begins addr fp n (raised e, m) = m ≡ n
Begins addr fp n (ok _, m) =
    ((m.connecting ≡ some (addr, fp)) × IsOver m.session)
    ⊎ ((m.connecting ≡ none) × (m.session ≡ some (new_session addr fp)))
Begins addr fp n (pending, m) = ⊥

pub connect_begins-Begins :
    (addr : String) (fp : Bytes) (n : Node)
    → n.connecting ≡ none
    → Begins addr fp n (connect_begins addr fp n)
unfolding connect_begins create_session
connect_begins-Begins addr fp n alone = elim (Bool-cases (length fp == 64)) [
  | inr short ↦ simp short refl
  | inl sized ↦ elim (Bool-cases n.closed) [
    | inl closed ↦ simp (sized, closed) refl
    | inr open_yet ↦ elim (Bool-cases (is_running n.session)) [
      | inl running ↦ simp (sized, open_yet, running) (inl (refl, stop-IsOver _ n.session))
      | inr idle ↦ simp (sized, open_yet, idle) (inr (refl, refl))
    ]
  ]
]
