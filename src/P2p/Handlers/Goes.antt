-- ===== src/P2p/Handlers/Goes.antt =====
-- A call of a handler of p2p/node.py as a sequence of steps of its session's life.
use uniconn.Prelude.{ℕ, ◌≤◌, ◌<◌, ◌≡◌, ◌≢◌, refl, sym, subst, arith, ltb, Bool-cases, inl, inr}
use uniconn.Outcome.{Outcome}
use uniconn.Action.{Action}
use uniconn.P2p.Session.{Session}
use uniconn.P2p.Session.Life.{Phase, unborn, Life, set_phase, moved, Step, Reach, here, later}

pub Reach-trans : {l m n : Life} → Reach l m → Reach m n → Reach l n
Reach-trans r here = r
Reach-trans r (later q st) = later (Reach-trans r q) st

-- The connections from number `n` on are not dialled yet.
abbrev pub IsFresh : Life → ℕ → Type 0
IsFresh l n = (k : ℕ) → n ≤ k → l.phase k ≡ unborn

-- A connection that was dialled has a number below.
pub dialed_below : (l : Life) (n raw : ℕ) → IsFresh l n → l.phase raw ≢ unborn → raw < n
dialed_below l n raw h dialed = elim (Bool-cases (ltb raw n)) [
  | inl below ↦ ground arith
  | inr above ↦ absurd (dialed (h raw (ground arith)))
]

moved-IsFresh :
    (l : Life) (s : Session) (n raw : ℕ) (to : Phase)
    → IsFresh l n
    → raw < n
    → IsFresh (moved l s raw to) n
moved-IsFresh l s n raw to h below k above = ground (arith, h k above)

-- `fresh` is the number that the next connection gets; a call that left the session and the world at
-- `x` is a sequence of steps from `l`, after which `Q` holds.
pub record Goes {ℓ} {W : Type ℓ} (fresh : W → ℕ) (l : Life) (x : Session × W) (Q : Life → Type 0)
    : Type 0 where
  pub after : Life
  pub reach : Reach l after
  pub session_is : x.0 ≡ after.session
  pub fresh_is : IsFresh after (fresh x.1)
  pub holds : Q after

module _ {ℓ} {W : Type ℓ} (fresh : W → ℕ) where
  -- One call behind another.
  pub goes_on :
      {B : Type 0} (l : Life) (x : Session × W) (Q : Life → Type 0) (k : Action (Session × W) B)
      (R : Outcome B → Life → Type 0)
      → Goes fresh l x Q
      → ((m : Life)
          → IsFresh m (fresh x.1)
          → Q m
          → Goes fresh m (k (m.session, x.1)).1 (R (k (m.session, x.1)).0))
      → Goes fresh l (k x).1 (R (k x).0)
  goes_on l x Q k R g next =
      let m = g.after in
      let n = next m g.fresh_is g.holds in
      let n' : Goes fresh m (k x).1 (R (k x).0) =
        subst (λ s. Goes fresh m (k (s, x.1)).1 (R (k (s, x.1)).0)) (sym g.session_is) n in
      record {
        after = n'.after;
        reach = Reach-trans g.reach n'.reach;
        session_is = n'.session_is;
        fresh_is = n'.fresh_is;
        holds = n'.holds;
      }

pub set_phase-same : (raw : ℕ) (to : Phase) (phase : ℕ → Phase) → set_phase raw to phase raw ≡ to
set_phase-same raw to phase = ground arith

module _ {ℓ} {W : Type ℓ} (fresh : W → ℕ) where
  pub stepped :
      (l : Life) (raw : ℕ) (w : W) (s : Session) (to : Phase)
      → IsFresh l (fresh w)
      → raw < fresh w
      → Step l (moved l s raw to)
      → Goes fresh l (s, w) (λ m. m.phase raw ≡ to)
  stepped l raw w s to new below st = record {
    after = moved l s raw to;
    reach = later here st;
    session_is = refl;
    fresh_is = moved-IsFresh l s (fresh w) raw to new below;
    holds = set_phase-same raw to l.phase;
  }

  pub weaker :
      (l : Life) (x : Session × W) (Q R : Life → Type 0)
      → Goes fresh l x Q
      → ((m : Life) → Q m → R m)
      → Goes fresh l x R
  weaker l x Q R g f = record {
    after = g.after;
    reach = g.reach;
    session_is = g.session_is;
    fresh_is = g.fresh_is;
    holds = f g.after g.holds;
  }
