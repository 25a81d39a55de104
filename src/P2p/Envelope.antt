-- ===== src/P2p/Envelope.antt =====
-- uniconn-py/uniconn/p2p/protocol.py, and `read_envelope` and `write_envelope` of p2p/node.py: control
-- messages, each a JSON object on a line of its own.
pub mod Exchange
use uniconn.Prelude.{ℕ, zero, suc, ◌*◌, String, [], ◌∷◌, ◌++◌, ◌==◌, if◌then◌else◌}
use uniconn.Outcome.{
  Outcome, ok, raised, pending, Exn, exn, connection_error, value_error, index_error, text,
}
use uniconn.Action.{Action, pure, raise, lift, ◌>>=◌}
use uniconn.Struct.{Bytes}
use uniconn.Conn.{Conn}
use uniconn.Json.{Json, string, object, entry, no_fields}
use uniconn.Json.Access.{JsonCodec}

abbrev pub announce : String
announce = "ANNOUNCE"

abbrev pub relay_req : String
relay_req = "RELAY_REQ"

abbrev pub incoming_relay : String
incoming_relay = "INCOMING_RELAY"

abbrev pub accept_relay : String
accept_relay = "ACCEPT_RELAY"

abbrev pub relay_ack : String
relay_ack = "RELAY_ACK"

-- `64 * 1024`
abbrev pub max_line : ℕ
max_line = 64 * 1024

-- `{"type": msg_type, "payload": payload}`
unfoldable pub envelope : String → Json → Json
envelope msg_type payload =
    object (entry "type" (string msg_type) (entry "payload" payload no_fields))

-- `buf[0]`
abbrev pub first_byte : Bytes → Outcome ℕ
first_byte [] = raised (exn index_error (text "bytearray index out of range"))
first_byte (b ∷ bs) = ok b

abbrev pub closed_by_peer : Exn
closed_by_peer = exn connection_error (text "connection closed by peer")

abbrev pub too_large : Exn
too_large = exn value_error (text "control message too large")

module _ {ℓ} {S : Type ℓ} (conn : Conn S) where
  -- The loop of `read_envelope`, up to the line: `room` is `64 * 1024 - len(line)`, which each round
  -- makes smaller by one.
  unfoldable pub read_line : ℕ → Bytes → Bytes → Action S Bytes
  read_line zero line buf = raise too_large
  read_line (suc room) line buf = conn.read buf >>= λ (n, buf').
      if n == 0
      then raise closed_by_peer
      else (lift (first_byte buf') >>= λ b.
          if b == 10 then pure line else read_line room (line ++ (b ∷ [])) buf')

  unfoldable pub read_envelope : JsonCodec → Action S Json
  read_envelope codec = do line ← read_line max_line [] (0 ∷ []); lift (codec.loads line)

  unfoldable pub write_envelope : JsonCodec → String → Json → Action S ℕ
  write_envelope codec msg_type payload =
      conn.write (codec.dumps (envelope msg_type payload) ++ (10 ∷ []))
