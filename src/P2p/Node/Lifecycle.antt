-- ===== src/P2p/Node/Lifecycle.antt =====
-- Which sessions of a node of p2p/node.py are running, over any sequence of steps.
use uniconn.Prelude.{
  ℕ, ◌≡◌, sym, subst, String, true, false, Option, none, some, List, [], ◌∷◌, ◌==◌, arith, length,
  Bool-cases, inl, inr,
}
use uniconn.Outcome.{Exn}
use uniconn.Struct.{Bytes}
use uniconn.P2p.Session.{Session, set_error, stop_ends, controlled_by}
use uniconn.P2p.Session.Life.{Life, Step}
use uniconn.P2p.Session.Life.Ending.{stops-over, Step-over}
use uniconn.P2p.Node.{
  Node, new_node, stop_current, drain_current, control_current, with_old, is_running,
  create_session, connect_begins, connect_continues, connect_fails, connect_cancelled,
  connect_returns, control_lost, close, close_ends,
}

abbrev pub IsOver : Option Session → Type 0
IsOver none = Unit
IsOver (some s) = set_error s.error ≡ true

abbrev pub AreOver : List Session → Type 0
AreOver [] = Unit
AreOver (s ∷ sessions) = (set_error s.error ≡ true) × AreOver sessions

-- One step of a node's tasks or callers, in any order: the lock around `connect_relay` allows fewer.
-- `works` is a step of its session.
pub data NodeStep (n m : Node) : Type 0 where
  connect_starts : (addr : String) (fp : Bytes) → m ≡ (connect_begins addr fp n).1 → NodeStep n m
  connect_goes_on :
      (addr : String) (fp : Bytes)
      → n.connecting ≡ some (addr, fp)
      → m ≡ connect_continues addr fp n
      → NodeStep n m
  connect_gives_up : m ≡ connect_cancelled n → NodeStep n m
  connect_raises : m ≡ connect_fails n → NodeStep n m
  connect_done :
      (addr : String) (fp : Bytes) (raw : ℕ) → m ≡ connect_returns addr fp raw n → NodeStep n m
  control_fails : (reason : Exn) → m ≡ control_lost reason n → NodeStep n m
  works :
      (l k : Life)
      → n.session ≡ some l.session
      → Step l k
      → m ≡ record n { session = some k.session }
      → NodeStep n m
  closes : m ≡ close n → NodeStep n m
  close_done : m ≡ close_ends n → NodeStep n m

pub data NodeReach (n : Node) : Node → Type 0 where
  here : NodeReach n n
  later : {m k : Node} → NodeReach n m → NodeStep m k → NodeReach n k

-- The sessions that were replaced are over, and so is the node's own while a new one is to replace it.
pub record HasOneLive (n : Node) : Type 0 where
  pub over : AreOver n.replaced
  pub giving_way : (next : String × Bytes) → n.connecting ≡ some next → IsOver n.session

pub stop-IsOver : (reason : Exn) (s : Option Session) → IsOver (stop_current reason s)
stop-IsOver reason none = tt
stop-IsOver reason (some s) = stops-over reason s

pub drain-IsOver : (s : Option Session) → IsOver s → IsOver (drain_current s)
unfolding stop_ends
drain-IsOver none h = tt
drain-IsOver (some s) h = h

pub control-IsOver : (raw : ℕ) (s : Option Session) → IsOver s → IsOver (control_current raw s)
unfolding controlled_by
control-IsOver raw none h = tt
control-IsOver raw (some s) h = h

pub work-IsOver :
    (s : Option Session) (l k : Life)
    → s ≡ some l.session
    → Step l k
    → IsOver s
    → IsOver (some k.session)
work-IsOver none l k e st h = cc
work-IsOver (some s) l k e st h = Step-over l k st (subst IsOver e h)

pub idle-IsOver : (s : Option Session) → is_running s ≡ false → IsOver s
idle-IsOver none h = tt
idle-IsOver (some s) h = ground arith

with_old-AreOver :
    (s : Option Session) (sessions : List Session)
    → IsOver s
    → AreOver sessions
    → AreOver (with_old s sessions)
with_old-AreOver none sessions h hs = hs
with_old-AreOver (some s) sessions h hs = (h, hs)

connect_starts-HasOneLive :
    (addr : String) (fp : Bytes) (n : Node) → HasOneLive n → HasOneLive (connect_begins addr fp n).1
unfolding connect_begins create_session
connect_starts-HasOneLive addr fp n h = elim (Bool-cases (length fp == 64)) [
  | inr e ↦ simp e h
  | inl e ↦ elim (Bool-cases n.closed) [
    | inl c ↦ simp (e, c) h
    | inr c ↦ elim (Bool-cases (is_running n.session)) [
      | inl r ↦
          simp (e, c, r) (record { over = h.over; giving_way = λ next p. stop-IsOver _ n.session })
      | inr r ↦
          simp (e, c, r)
            (record {
              over = with_old-AreOver n.session n.replaced (idle-IsOver n.session r) h.over;
              giving_way = λ next p. cc;
            })
    ]
  ]
]

Step-HasOneLive : (n m : Node) → NodeStep n m → HasOneLive n → HasOneLive m
unfolding connect_continues create_session connect_fails connect_cancelled connect_returns
    control_lost close close_ends
Step-HasOneLive n m (connect_starts addr fp e) h =
    subst HasOneLive (sym e) (connect_starts-HasOneLive addr fp n h)
Step-HasOneLive n m (connect_goes_on addr fp p e) h = subst HasOneLive (sym e) (record {
  over =
      with_old-AreOver (drain_current n.session) n.replaced
        (drain-IsOver n.session (h.giving_way (addr, fp) p)) h.over;
  giving_way = λ next q. cc;
})
Step-HasOneLive n m (connect_gives_up e) h =
    subst HasOneLive (sym e) (record { over = h.over; giving_way = λ next q. cc })
Step-HasOneLive n m (connect_raises e) h =
    subst HasOneLive (sym e)
      (record { over = h.over; giving_way = λ next q. stop-IsOver _ n.session })
Step-HasOneLive n m (connect_done addr fp raw e) h = subst HasOneLive (sym e) (record {
  over = h.over;
  giving_way = λ next q. control-IsOver raw n.session (h.giving_way next q);
})
Step-HasOneLive n m (control_fails reason e) h =
    subst HasOneLive (sym e)
      (record { over = h.over; giving_way = λ next q. stop-IsOver reason n.session })
Step-HasOneLive n m (works l k p st e) h = subst HasOneLive (sym e) (record {
  over = h.over;
  giving_way = λ next q. work-IsOver n.session l k p st (h.giving_way next q);
})
Step-HasOneLive n m (closes e) h =
    subst HasOneLive (sym e)
      (record { over = h.over; giving_way = λ next q. stop-IsOver _ n.session })
Step-HasOneLive n m (close_done e) h =
    subst HasOneLive (sym e) (record {
      over = h.over;
      giving_way = λ next q. drain-IsOver n.session (h.giving_way next q);
    })

-- In every state that the steps of a new node lead to, the sessions that were replaced have ended, so
-- that at most the node's own session is running; and it has ended too while another is to replace it.
pub Reach-HasOneLive : {n : Node} → NodeReach new_node n → HasOneLive n
unfolding new_node
Reach-HasOneLive here = record { over = tt; giving_way = λ next e. cc }
Reach-HasOneLive (later {m} {k} r st) = Step-HasOneLive m k st (Reach-HasOneLive r)
