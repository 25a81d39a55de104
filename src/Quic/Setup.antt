-- ===== src/Quic/Setup.antt =====
-- What the dialers and listeners under uniconn-py/uniconn/quic and webtransport give to aioquic and
-- to the socket module. A number of an address is what Python's `int` makes of it.
use Prim.Native.String.{◌++◌ as str_append}
use uniconn.Prelude.{ℕ, String, Bool, false, Option, some, List, [], ◌∷◌}
use uniconn.Outcome.{Outcome, ok, raised, exn, index_error, text}
use uniconn.Action.{Action, lift, ◌>>=◌, ◌>>◌}

-- `QuicConfiguration`, as far as the code sets it.
pub record QuicConfiguration : Type 0 where
  pub is_client : Bool
  pub alpn_protocols : List String
  pub max_datagram_frame_size : Option ℕ
  pub server_name : Option String
  pub verify_mode : Option ℕ

-- `alpn_protocols or ["uniconn"]`
unfoldable pub alpn_or_default : Option (List String) → List String
alpn_or_default (some (p ∷ ps)) = p ∷ ps
alpn_or_default _ = "uniconn" ∷ []

-- An address of `getaddrinfo`, of two or of four parts.
pub data SockAddr : Type 0 where
  inet : String → ℕ → SockAddr
  inet6 : String → ℕ → ℕ → ℕ → SockAddr

-- `if len(addr) == 2: addr = ("::ffff:" + addr[0], addr[1], 0, 0)`
unfoldable pub mapped : SockAddr → SockAddr
mapped (inet host port) = inet6 (str_append "::ffff:" host) port 0 0
mapped (inet6 host port flow scope) = inet6 host port flow scope

-- `infos[0][4]`
unfoldable pub first_addr : List SockAddr → Outcome SockAddr
first_addr [] = raised (exn index_error (text "list index out of range"))
first_addr (addr ∷ others) = ok addr

-- The calls of the packages, of state `E`: `bind_socket` binds a new socket of AF_INET6 to an address,
-- with IPV6_V6ONLY or not, and `open_endpoint` makes the protocol object of a new QuicConnection on it.
pub record QuicCalls {ℓ} (E : Type ℓ) : Type ℓ where
  pub getaddrinfo : String → ℕ → Action E (List SockAddr)
  pub bind_socket : Bool → SockAddr → Action E (Unit {0})
  pub open_endpoint : QuicConfiguration → Action E (Unit {0})
  pub connect : SockAddr → Action E (Unit {0})
  pub wait_connected : Action E (Unit {0})

-- From the resolution of the address to `wait_connected`.
unfoldable pub connect_to {ℓ} :
    {E : Type ℓ} → QuicCalls E → QuicConfiguration → String → ℕ → Action E (Unit {0})
unfolding first_addr mapped
connect_to calls config host port = do
  infos ← calls.getaddrinfo host port
  addr ← lift (first_addr infos)
  calls.bind_socket false (inet6 "::" 0 0 0)
  calls.open_endpoint config
  calls.connect (mapped addr)
  calls.wait_connected
