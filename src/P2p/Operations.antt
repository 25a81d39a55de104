-- ===== src/P2p/Operations.antt =====
-- What a node of p2p/node.py does over a connection to the relay that it has just dialled: the
-- functions `connect`, `accept` and `dial` that `connect_relay`, `_accept_relay_proxy` and `dial_peer`
-- give to `_setup`. The connection itself is the caller's, which closes it after an exception; its
-- state is not returned here.
pub mod Granted
pub mod Authentication
pub mod Meeting
use uniconn.Prelude.{
  ℕ, Bool, true, false, not, Option, none, some, [], ◌∷◌, ◌==◌, length, String, if◌then◌else◌,
}
use uniconn.Outcome.{
  Outcome, ok, raised, pending, Exn, exn, connection_error, value_error, type_error, text,
  text_value, ◌>>=◌, reject,
}
use uniconn.Outcome.{◌>>◌}
use uniconn.Action.{Action}
use uniconn.Struct.{Bytes}
use uniconn.Conn.{Conn}
use uniconn.Json.{Json, truth, string, array, no_items, object, entry, no_fields, truthy}
use uniconn.Json.Access.{JsonCodec, subscript, get_or, equals_string}
use uniconn.Secure.Crypto.{Aead, Suite}
use uniconn.Secure.Identity.{Identity, fingerprint}
use uniconn.Secure.Channel.{SecureConn, channel}
use uniconn.Secure.Handshake.{VerifyFn, handshake_initiator, handshake_responder}
use uniconn.P2p.Hex.{hex, fromhex}
use uniconn.P2p.Envelope.{
  incoming_relay, announce, relay_req, accept_relay, relay_ack, read_envelope, write_envelope,
}

-- What a call on the channel returned, with the channel as it is then.
abbrev pub paired {ℓ} : {T : Type ℓ} {A : Type 0} → Outcome A × T → Outcome (A × T)
paired (ok a, t) = ok (a, t)
paired (raised e, t) = raised e
paired (pending, t) = pending

-- `{"fingerprint": self.identity.fingerprint().hex(), "direct_addresses": []}`
unfoldable pub announce_payload : Suite → Identity → Json
announce_payload p identity = object (
    entry "fingerprint" (string (hex (fingerprint p identity)))
      (entry "direct_addresses" (array no_items) no_fields))

-- `len(peer_fp) != 64` and `len(requester_fp) != 64`
abbrev pub check_size : String → Bytes → Outcome (Unit {0})
check_size complaint fp = reject (not (length fp == 64)) (exn value_error (text complaint))

-- The checks of `dial` on the relay's answer.
unfoldable pub check_ack : Json → Outcome (Unit {0})
check_ack ack = do
  msg_type ← subscript "type" ack
  reject (not (equals_string relay_ack msg_type))
      (exn connection_error (text_value "expected RELAY_ACK, got" msg_type))
  payload ← subscript "payload" ack
  success ← get_or "success" (truth false) payload
  reason ← get_or "reason" (string "unknown") payload
  reject (not (truthy success)) (exn connection_error (text_value "relay proxy failed" reason))

-- `bytes.fromhex(value)`
unfoldable pub hex_value : Json → Outcome Bytes
hex_value (string s) = fromhex s
hex_value v = raised (exn type_error (text "fromhex() argument must be str"))

-- `_accept_relay_proxy` up to `_setup`: the fingerprint of the requester.
unfoldable pub requester_fingerprint : Json → Outcome Bytes
requester_fingerprint payload = do
  value ← subscript "requester_fingerprint" payload
  fp ← hex_value value
  check_size "requester fingerprint must be 64 bytes" fp
  ok fp

-- A round of `_read_control_loop` behind `read_envelope`: the payload that a new task of
-- `_accept_relay_proxy` gets, if the message is an INCOMING_RELAY.
unfoldable pub incoming_payload : Json → Outcome (Option Json)
incoming_payload env = do
  msg_type ← subscript "type" env
  (if equals_string incoming_relay msg_type
      then (subscript "payload" env >>= λ payload. ok (some payload))
      else ok none)

module _ {ℓ} {S : Type ℓ} (conn : Conn S) (p : Suite) (aead : Aead) (now : ℕ → ℕ)
    (codec : JsonCodec) (identity : Identity) (verify_fn : Option VerifyFn) (relay_fp : Bytes) where
  -- `sc = await handshake_initiator(raw, self.identity, session.fp, self.verify_fn)`
  unfoldable pub relay_channel : ℕ → S → Outcome (SecureConn S)
  relay_channel seed raw = (handshake_initiator conn p identity relay_fp verify_fn seed raw).0

  -- `connect`
  unfoldable pub connect_operation : ℕ → S → Outcome (SecureConn S)
  connect_operation seed raw = do
    sc ← relay_channel seed raw
    (n, sc') ←
        paired
          (write_envelope (channel conn aead now) codec announce (announce_payload p identity) sc)
    ok sc'

  -- `accept`, for the payload of an INCOMING_RELAY and the fingerprint in it
  unfoldable pub accept_operation : Json → Bytes → ℕ → ℕ → S → Outcome (SecureConn (SecureConn S))
  accept_operation payload requester_fp seed seed' raw = do
    sc ← relay_channel seed raw
    session_token ← subscript "session_token" payload
    (n, sc') ← paired (
        write_envelope (channel conn aead now) codec accept_relay
          (object (entry "session_token" session_token no_fields)) sc)
    (handshake_responder (channel conn aead now) p identity requester_fp verify_fn seed' sc').0

  -- `dial`
  unfoldable pub dial_operation : Bytes → ℕ → ℕ → S → Outcome (SecureConn (SecureConn S))
  dial_operation peer_fp seed seed' raw = do
    sc ← relay_channel seed raw
    (n, sc₁) ← paired (
        write_envelope (channel conn aead now) codec relay_req
          (object (entry "target_fingerprint" (string (hex peer_fp)) no_fields)) sc)
    (ack, sc₂) ← paired (read_envelope (channel conn aead now) codec sc₁)
    check_ack ack
    (handshake_initiator (channel conn aead now) p identity peer_fp verify_fn seed' sc₂).0
