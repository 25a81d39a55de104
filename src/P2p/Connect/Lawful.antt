-- ===== src/P2p/Connect/Lawful.antt =====
-- What `connect_relay` of p2p/node.py leaves of the node.
use uniconn.Prelude.{
  ℕ, ◌≡◌, inl, inr, refl, sym, ap, ◌∙◌, subst, String, Option, none, some, Bool-cases,
}
use uniconn.Outcome.{Outcome, ok, raised, pending, Exn}
use uniconn.Action.{Action, continue}
use uniconn.Struct.{Bytes}
use uniconn.P2p.Session.{Session, new_session, controlled_by}
use uniconn.P2p.Node.{
  Node, new_node, is_running, create_session, connect_begins, connect_continues, connect_fails,
  connect_cancelled, connect_returns, close_ends, control_current,
}
use uniconn.P2p.Node.Lifecycle.{
  IsOver, connect_starts, connect_goes_on, connect_gives_up, connect_raises, connect_done,
  close_done, NodeReach, here, later, stop-IsOver, drain-IsOver, idle-IsOver, HasOneLive,
  Reach-HasOneLive,
}
use uniconn.P2p.Node.Others.{
  NodeReach-trans, OtherReach-NodeReach, OtherReach-connecting, OtherReach-IsOver,
}
use uniconn.P2p.Connect.{fail_stopped, fail, set_up, begin, go_on, replace, connect_relay}
use uniconn.P2p.Handlers.{Waited}
use uniconn.P2p.Connect.Steps.{setup-Keeps}
use uniconn.P2p.Connect.Ends.{IsNodeWorld, Connects, Goes, Begins, connect_begins-Begins}

module _ {ℓ} {W : Type ℓ} (wait : Action (Node × W) (Unit {0}))
    (dial : String → Action (Session × (Node × W)) ℕ)
    (meanwhile : Session × (Node × W) → Session × (Node × W)) {A : Type 0}
    (operation : ℕ → Action (Session × (Node × W)) A) (waited : Waited)
    (world : IsNodeWorld wait dial meanwhile operation) (addr : String) (fp : Bytes)
    (n : Node) where
  fail_stopped-Goes :
      (e : Exn) (r : Outcome (Unit {0})) (n₀ m : Node) (w : W)
      → NodeReach n₀ m
      → m.connecting ≡ none
      → IsOver m.session
      → Goes addr fp n n₀ (fail_stopped wait dial meanwhile operation waited e r (m, w))
  unfolding fail_stopped close_ends
  fail_stopped-Goes e (ok _) n₀ m w g alone over =
      (later g (close_done refl), inr (drain-IsOver m.session over, alone))
  fail_stopped-Goes e (raised x) n₀ m w g alone over = (g, inr (over, alone))
  fail_stopped-Goes e pending n₀ m w g alone over = (g, tt)

  fail-Goes :
      (e : Exn) (n₀ m : Node) (w : W)
      → NodeReach n₀ m
      → m.connecting ≡ none
      → Goes addr fp n n₀ (fail wait dial meanwhile operation waited e (m, w))
  unfolding fail
  fail-Goes e n₀ m w g alone = elim (Bool-cases (is_running m.session)) [
    | inr idle ↦ rw idle (g, inr (idle-IsOver m.session idle, alone))
    | inl running ↦
        let o = world.waiting (connect_fails m) w in
        rw running (
          fail_stopped-Goes e _ n₀ _ _
            (NodeReach-trans (later g (connect_raises refl)) (OtherReach-NodeReach o))
            (OtherReach-connecting o ∙ unfold connect_fails in alone)
            (OtherReach-IsOver o (unfold connect_fails in stop-IsOver _ m.session)))
  ]

  set_up-Goes :
      (r : Outcome (ℕ × A)) (n₀ m : Node) (s : Session) (w : W)
      → NodeReach n₀ m
      → m.session ≡ some s
      → m.connecting ≡ none
      → Goes addr fp n n₀ (set_up wait dial meanwhile operation waited addr fp r (m, w))
  unfolding set_up connect_returns controlled_by
  set_up-Goes (ok (raw, _)) n₀ m s w g has alone = (
    later g (connect_done addr fp raw refl),
    record {
      raw = raw;
      session = controlled_by raw s;
      has_session = ap (control_current raw) has;
      controls = refl;
      control_conn = refl;
      relay_addr = refl;
      relay_fp = refl;
      alone = alone;
    },
  )
  set_up-Goes (raised e) n₀ m s w g has alone = fail-Goes e n₀ m w g alone
  set_up-Goes pending n₀ m s w g has alone = (g, tt)

  begin-Goes :
      (n₀ m : Node) (w : W)
      → NodeReach n₀ m
      → m.session ≡ some (new_session addr fp)
      → m.connecting ≡ none
      → Goes addr fp n n₀ (begin wait dial meanwhile operation waited addr fp (m, w))
  unfolding begin
  begin-Goes n₀ m w g has alone =
      let o =
        setup-Keeps dial meanwhile operation world.dialling world.operating world.resuming waited
          (new_session addr fp, (m, w)) in
      let same : m ≡ record m { session = some (new_session addr fp) } =
        ap (λ t. record m { session = t }) has in
      set_up-Goes _ n₀ _ _ _
        (NodeReach-trans (subst (NodeReach n₀) same g) (OtherReach-NodeReach o)) refl
        (OtherReach-connecting o ∙ alone)

  go_on-Goes :
      (r : Outcome (Unit {0})) (n₀ m : Node) (w : W)
      → NodeReach n₀ m
      → m.connecting ≡ some (addr, fp)
      → IsOver m.session
      → Goes addr fp n n₀ (go_on wait dial meanwhile operation waited addr fp r (m, w))
  unfolding go_on connect_continues create_session connect_cancelled
  go_on-Goes (ok _) n₀ m w g next over =
      begin-Goes n₀ _ w (later g (connect_goes_on addr fp next refl)) refl refl
  go_on-Goes (raised e) n₀ m w g next over = (later g (connect_gives_up refl), inr (over, refl))
  go_on-Goes pending n₀ m w g next over = (g, tt)

  -- The rest of `connect_relay`, by what its first piece has come to.
  abbrev rest_of : W → Outcome (Unit {0}) × Node → Outcome (Unit {0}) × (Node × W)
  rest_of w (r, m) =
      continue r (λ _. replace wait dial meanwhile operation waited addr fp m.connecting) (m, w)

  replaced-Goes :
      (w : W) (m : Node) {next : Option (String × Bytes)}
      → m.connecting ≡ next
      → Goes addr fp n n (replace wait dial meanwhile operation waited addr fp next (m, w))
      → Goes addr fp n n (replace wait dial meanwhile operation waited addr fp m.connecting (m, w))
  replaced-Goes w m next =
      subst (λ c. Goes addr fp n n (replace wait dial meanwhile operation waited addr fp c (m, w)))
        (sym next)

  begun-Goes :
      (w : W) (p : Outcome (Unit {0}) × Node)
      → Begins addr fp n p
      → connect_begins addr fp n ≡ p
      → Goes addr fp n n (rest_of w p)
  unfolding replace create_session
  begun-Goes w (raised e, m) h is = (subst (NodeReach n) (sym h) here, inl h)
  begun-Goes w (pending, m) h is = absurd h
  begun-Goes w (ok _, m) (inl (next, over)) is =
      let o = world.waiting m w in
      let g : NodeReach n m = later here (connect_starts addr fp (sym (ap (λ q. q.1) is))) in
      replaced-Goes w m next (
        go_on-Goes _ n _ _ (NodeReach-trans g (OtherReach-NodeReach o))
          (OtherReach-connecting o ∙ next) (OtherReach-IsOver o over))
  begun-Goes w (ok _, m) (inr (none_next, has)) is = replaced-Goes w m none_next (
      begin-Goes n m w (later here (connect_starts addr fp (sym (ap (λ q. q.1) is)))) has none_next)

  connect_relay-Goes :
      (w : W)
      → n.connecting ≡ none
      → Goes addr fp n n (connect_relay wait dial meanwhile operation waited addr fp (n, w))
  unfolding connect_relay
  connect_relay-Goes w alone = begun-Goes w _ (connect_begins-Begins addr fp n alone) refl

-- Of `connect_relay` on a node in any state that its steps lead to, with no other `connect_relay`
-- under way, while its other tasks and callers take any steps at its awaits: at most the node's own
-- session is running then; if it returns, the node has a session whose control connection is the
-- node's, and the relay's address and fingerprint; and if it raises an exception, it has left the
-- node as it was, or the node's session has ended, and no other is to replace it.
pub connect_relay-Connects {ℓ} :
    {W : Type ℓ} {A : Type 0} (wait : Action (Node × W) (Unit {0}))
    (dial : String → Action (Session × (Node × W)) ℕ)
    (meanwhile : Session × (Node × W) → Session × (Node × W))
    (operation : ℕ → Action (Session × (Node × W)) A) (waited : Waited) (addr : String) (fp : Bytes)
    (n : Node) (w : W)
    → IsNodeWorld wait dial meanwhile operation
    → NodeReach new_node n
    → n.connecting ≡ none
    → HasOneLive (connect_relay wait dial meanwhile operation waited addr fp (n, w)).1.0
      × Connects addr fp n
          (connect_relay wait dial meanwhile operation waited addr fp (n, w)).0
          (connect_relay wait dial meanwhile operation waited addr fp (n, w)).1.0
connect_relay-Connects wait dial meanwhile operation waited addr fp n w world reached alone =
    let (g, ends) =
      connect_relay-Goes wait dial meanwhile operation waited world addr fp n w alone in
    (Reach-HasOneLive (NodeReach-trans reached g), ends)
