-- ===== src/Conn/Listening.antt =====
-- The interfaces `Listener` and `Dialer` of uniconn-py/uniconn/conn.py, and what a listener
-- promises: that its `accept` takes from a queue.
pub mod Order
use uniconn.Prelude.{◌≡◌, String, Option, List, [], ◌∷◌, ◌++◌}
use uniconn.Outcome.{ok, pending}
use uniconn.Action.{Action}
use uniconn.Conn.{Addr}

-- `S` is the state of the listener object and `C` what it accepts.
pub record Listener {ℓ κ} (S : Type ℓ) (C : Type κ) : Type (ℓ ⊔ κ) where
  pub accept : Action S C
  pub close : Action S (Unit {0})
  pub addr : S → Option Addr

pub record Dialer {ℓ κ} (E : Type ℓ) (C : Type κ) : Type (ℓ ⊔ κ) where
  pub dial : String → Action E C

-- The call took the first of the queue, or waits, as the queue is empty.
abbrev pub Takes {ℓ κ} :
    {S : Type ℓ} {C : Type κ} → Listener S C → (S → List C) → S → List C → Type (ℓ ⊔ κ)
Takes {S = S} l queue s [] = l.accept s ≡ (pending, s)
Takes {S = S} l queue s (c ∷ others) = (s' : S) × (l.accept s ≡ (ok c, s')) × (queue s' ≡ others)

-- `arrives` is what the server does when a connection comes in.
pub record IsListener {ℓ κ} {S : Type ℓ} {C : Type κ} (l : Listener S C) (queue : S → List C)
    (arrives : C → S → S) : Type (ℓ ⊔ κ) where
  pub takes : (s : S) → Takes l queue s (queue s)
  pub closes : (s : S) → queue (l.close s).1 ≡ queue s
  pub queues : (c : C) (s : S) → queue (arrives c s) ≡ queue s ++ (c ∷ [])
