-- ===== src/Conn.antt =====
-- uniconn-py/uniconn/conn.py: the interface that every transport and the secure channel implement.
-- `S` is the state of the connection object. `read` is given the caller's buffer and returns the
-- number of bytes read with the buffer as it is then.
pub mod Stream
pub mod Buffer
pub mod Serve
pub mod Listening
use package.text.Mathlib.Text.{◌==◌ as str_eq}
use uniconn.Prelude.{ℕ, String, Option, none, some, if◌then◌else◌}
use uniconn.Action.{Action}
use uniconn.Struct.{Bytes}

pub record Addr : Type 0 where
  pub network : String
  pub address : String

pub record Conn {ℓ} (S : Type ℓ) : Type ℓ where
  pub read : Bytes → Action S (ℕ × Bytes)
  pub write : Bytes → Action S ℕ
  pub close : Action S (Unit {0})
  pub local_addr : S → Option Addr
  pub remote_addr : S → Option Addr

-- `if address: return Addr(network=network, address=address)`, and otherwise `return None`.
unfoldable pub given_addr : String → Option String → Option Addr
given_addr network none = none
given_addr network (some address) =
    if str_eq address "" then none else some (record { network = network; address = address })
