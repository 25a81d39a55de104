-- ===== src/Kcp/Listener.antt =====
-- `KcpListener` of uniconn-py/uniconn/kcp/__init__.py: one connection for each address that sends. The
-- queue of connections holds addresses, since each stands for the object in `connections`.
pub mod Routing
use package.text.Mathlib.Text.{◌==◌ as str_eq}
use Prim.Native.String.{◌++◌ as str_append}
use uniconn.Prelude.{
  String, Bool, true, false, ◌&&◌, Option, none, some, List, [], ◌∷◌, ◌++◌, if◌then◌else◌,
}
use uniconn.Outcome.{Outcome, ok, pending}
use uniconn.Action.{Action}
use uniconn.Struct.{Bytes}
use uniconn.Kcp.{KcpConn, on_data}

-- `connection.address_tuple`: the host, and the port as it is printed.
abbrev pub AddressTuple : Type 0
AddressTuple = String × String

abbrev pub same_address : AddressTuple → AddressTuple → Bool
same_address a b = str_eq a.0 b.0 && str_eq a.1 b.1

abbrev pub Connections {ℓ} : Type ℓ → Type ℓ
Connections W = List (AddressTuple × KcpConn W)

pub record KcpListener {ℓ} (W : Type ℓ) : Type ℓ where
  pub host : String
  pub port : String
  pub conn_queue : List AddressTuple
  pub connections : Connections W
  pub closed : Bool

module _ {ℓ} {W : Type ℓ} where
  unfoldable pub connection_at : Connections W → AddressTuple → Option (KcpConn W)
  connection_at [] a = none
  connection_at ((b, c) ∷ cs) a = if same_address b a then some c else connection_at cs a

  -- `KcpConn(connection, local_address=..., remote_address=...)`
  unfoldable pub new_conn : KcpListener W → AddressTuple → W → KcpConn W
  new_conn l a connection = record {
    link = connection;
    recv_queue = [];
    recv_buf = [];
    closed = false;
    local = some (str_append l.host (str_append ":" l.port));
    remote = some (str_append a.0 (str_append ":" a.1));
  }

  -- `if addr_tuple not in listener._connections`
  unfoldable pub register : Option (KcpConn W) → AddressTuple → W → KcpListener W → KcpListener W
  register (some c) a connection l = l
  register none a connection l = record l {
    connections = (a, new_conn l a connection) ∷ l.connections;
    conn_queue = l.conn_queue ++ (a ∷ []);
  }

  -- `listener._connections[addr_tuple]._on_data(data)`
  unfoldable pub feed : AddressTuple → Bytes → Connections W → Connections W
  feed a message [] = []
  feed a message ((b, c) ∷ cs) =
      let others = feed a message cs in
      if same_address b a then (b, on_data message c) ∷ cs else (b, c) ∷ others

  unfoldable pub handle_data : AddressTuple → W → Bytes → KcpListener W → KcpListener W
  handle_data a connection message l =
      let l' = register (connection_at l.connections a) a connection l in
      record l' { connections = feed a message l'.connections }

  unfoldable pub first_conn : List AddressTuple → Action (KcpListener W) AddressTuple
  first_conn [] l = (pending, l)
  first_conn (a ∷ queue) l = (ok a, record l { conn_queue = queue })

  unfoldable pub accept : Action (KcpListener W) AddressTuple
  unfolding first_conn
  accept l = first_conn l.conn_queue l

  unfoldable pub close : Action (KcpListener W) (Unit {0})
  close l = (ok tt, record l { closed = true })
