-- ===== src/Tests/Dialing.antt =====
-- Alice dials Bob through a relay, and accepts what he dials, with the toy packages.
use uniconn.Prelude.{
  ℕ, ◌+◌, ◌≡◌, ◌++◌, refl, Bool, true, false, none, some, [], ◌∷◌, take, replicate,
}
use uniconn.Outcome.{Outcome, ok, raised, pending}
use uniconn.Struct.{Bytes}
use uniconn.Tcp.{TcpConn, tcp}
use uniconn.Json.{Json, truth, string, object, entry, no_fields}
use uniconn.Json.Access.{JsonCodec}
use uniconn.Secure.Message.{msg_hello, msg_hello_reply}
use uniconn.Secure.Message.RoundTrip.{wire_hello}
use uniconn.Secure.Identity.{Identity}
use uniconn.Secure.Channel.{SecureConn, new, bind, write}
use uniconn.Secure.Channel.Wire.{frame}
use uniconn.Secure.Handshake.{derive_keys}
use uniconn.Secure.Handshake.Agreement.{message}
use uniconn.P2p.Envelope.{relay_ack, envelope}
use uniconn.P2p.Operations.{dial_operation, accept_operation}
use uniconn.P2p.Operations.Authentication.{
  DialChecked, AcceptChecked, dial_authenticates, accept_authenticates,
}
use uniconn.Tests.Toys.{toy_suite, plain_aead, peer_sent}

abbrev pub person : ℕ → Identity
person n = record { public_key = n ∷ []; secret_key = n ∷ [] }

abbrev pub fp_of : ℕ → Bytes
fp_of n = take 64 (n ∷ replicate 64 7)

abbrev pub clock : ℕ → ℕ
clock n = 1_700_000_000 + n

abbrev pub relay_codec : JsonCodec
relay_codec = record {
  loads = λ line. ok (envelope relay_ack (object (entry "success" (truth true) no_fields)));
  dumps = λ v. 123 ∷ 125 ∷ [];
}

-- The HELLO_REPLY of person `n` to a key 30 or 31 of one byte, and the HELLO of person `n`.
abbrev pub reply_of : ℕ → ℕ → Bytes
reply_of n ct = frame (wire_hello (message msg_hello_reply (person n) (ct ∷ []) (n ∷ 9 ∷ [])))

abbrev pub hello_of : ℕ → ℕ → Bytes
hello_of n ek = frame (wire_hello (message msg_hello (person n) (ek ∷ []) (n ∷ 9 ∷ [])))

-- The relay's end of the channel that it has with Alice, and what it sends on it.
abbrev relay_end : SecureConn TcpConn
relay_end = bind (peer_sent []) (new (derive_keys toy_suite (40 ∷ 30 ∷ [])) false)

abbrev says : Bytes → SecureConn TcpConn → SecureConn TcpConn
says m c = (write tcp plain_aead clock m c).1

abbrev sent_by : SecureConn TcpConn → Bytes
sent_by c = elim c.inner_conn [ none ↦ [] | some t ↦ t.writer.written ]

abbrev to_dialer : TcpConn
to_dialer =
    peer_sent
      (reply_of 50 40 ++ sent_by (says (reply_of 20 41) (says (123 ∷ 125 ∷ 10 ∷ []) relay_end)))

abbrev is_ok {ℓ} : {A : Type ℓ} → Outcome A → Bool
is_ok (ok a) = true
is_ok (raised e) = false
is_ok pending = false

value_of {ℓ} : {A : Type ℓ} (r : Outcome A) → is_ok r ≡ true → (a : A) × (r ≡ ok a)
value_of (ok a) h = (a, refl)
value_of (raised e) h = cc
value_of pending h = cc

abbrev dialing : Outcome (SecureConn (SecureConn TcpConn))
dialing =
    dial_operation tcp toy_suite plain_aead clock relay_codec (person 10) none (fp_of 50) (fp_of 20)
      30 31 to_dialer

dialed : is_ok dialing ≡ true
unfolding uniconn.Secure.Handshake.handshake_initiator uniconn.Secure.Handshake.initiator_secret
    uniconn.Secure.Handshake.import_mlkem uniconn.Secure.Handshake.check_peer
    uniconn.Secure.Handshake.derive_keys uniconn.Secure.Identity.sign uniconn.Secure.Identity.verify
    uniconn.Secure.Identity.compute_fingerprint uniconn.Secure.Message.marshal_hello
    uniconn.Secure.Message.unmarshal_hello uniconn.Secure.Message.field
    uniconn.Secure.Message.field_at uniconn.Secure.Message.framed uniconn.Secure.Message.hello_body
    uniconn.Secure.Message.marshal_data uniconn.Tcp.tcp uniconn.Tcp.answer uniconn.Tcp.close
    uniconn.Tcp.counted uniconn.Tcp.fill_front uniconn.Tcp.read uniconn.Tcp.write
    uniconn.Asyncio.drain uniconn.Asyncio.writer_write uniconn.Asyncio.reader_read
    uniconn.Asyncio.to_addr uniconn.Secure.Frame.read_frame_from_conn uniconn.Secure.Frame.fill
    uniconn.Secure.Frame.write_frame_to_conn uniconn.Struct.unpack uniconn.Struct.from_be
    uniconn.Struct.from_be_onto uniconn.Struct.pack uniconn.Struct.pack_into uniconn.Struct.to_be
    uniconn.Json.Access.equals_string uniconn.Json.Access.get_or uniconn.Json.Access.subscript
    uniconn.Json.lookup uniconn.Json.truthy uniconn.P2p.Envelope.envelope
    uniconn.P2p.Envelope.read_envelope uniconn.P2p.Envelope.read_line
    uniconn.P2p.Envelope.write_envelope uniconn.P2p.Hex.hex uniconn.P2p.Operations.dial_operation
    uniconn.P2p.Operations.relay_channel uniconn.P2p.Operations.check_ack
    uniconn.P2p.Operations.announce_payload uniconn.Secure.Channel.bind
    uniconn.Secure.Channel.channel uniconn.Secure.Channel.close uniconn.Secure.Channel.dispatch
    uniconn.Secure.Channel.handle_data uniconn.Secure.Channel.new uniconn.Secure.Channel.read
    uniconn.Secure.Channel.send uniconn.Secure.Channel.write uniconn.Secure.Data.make_nonce
    uniconn.Secure.Data.open_data uniconn.Secure.Data.peer_error uniconn.Secure.Data.seal_data
dialed = refl

dial_authenticates_example :
    DialChecked tcp toy_suite plain_aead clock relay_codec
      (person 10)
      none
      (fp_of 50)
      (fp_of 20)
      30
      31
      to_dialer
      (value_of dialing dialed).0
dial_authenticates_example =
    dial_authenticates tcp toy_suite plain_aead clock relay_codec (person 10) none (fp_of 50)
      (fp_of 20) 30 31 to_dialer (value_of dialing dialed).0 (value_of dialing dialed).1

abbrev request : Json
request = object (entry "session_token" (string "t") no_fields)

abbrev to_acceptor : TcpConn
to_acceptor = peer_sent (reply_of 50 40 ++ sent_by (says (hello_of 20 31) relay_end))

abbrev accepting : Outcome (SecureConn (SecureConn TcpConn))
accepting =
    accept_operation tcp toy_suite plain_aead clock relay_codec (person 10) none (fp_of 50) request
      (fp_of 20) 30 41 to_acceptor

accepted : is_ok accepting ≡ true
unfolding uniconn.Secure.Handshake.handshake_initiator uniconn.Secure.Handshake.initiator_secret
    uniconn.Secure.Handshake.import_mlkem uniconn.Secure.Handshake.check_peer
    uniconn.Secure.Handshake.derive_keys uniconn.Secure.Identity.sign uniconn.Secure.Identity.verify
    uniconn.Secure.Identity.compute_fingerprint uniconn.Secure.Message.marshal_hello
    uniconn.Secure.Message.unmarshal_hello uniconn.Secure.Message.field
    uniconn.Secure.Message.field_at uniconn.Secure.Message.framed uniconn.Secure.Message.hello_body
    uniconn.Secure.Message.marshal_data uniconn.Tcp.tcp uniconn.Tcp.answer uniconn.Tcp.close
    uniconn.Tcp.counted uniconn.Tcp.fill_front uniconn.Tcp.read uniconn.Tcp.write
    uniconn.Asyncio.drain uniconn.Asyncio.writer_write uniconn.Asyncio.reader_read
    uniconn.Asyncio.to_addr uniconn.Secure.Frame.read_frame_from_conn uniconn.Secure.Frame.fill
    uniconn.Secure.Frame.write_frame_to_conn uniconn.Struct.unpack uniconn.Struct.from_be
    uniconn.Struct.from_be_onto uniconn.Struct.pack uniconn.Struct.pack_into uniconn.Struct.to_be
    uniconn.Json.Access.equals_string uniconn.Json.Access.get_or uniconn.Json.Access.subscript
    uniconn.Json.lookup uniconn.Json.truthy uniconn.P2p.Envelope.envelope
    uniconn.P2p.Envelope.read_envelope uniconn.P2p.Envelope.read_line
    uniconn.P2p.Envelope.write_envelope uniconn.P2p.Hex.hex uniconn.P2p.Operations.accept_operation
    uniconn.Secure.Handshake.handshake_responder uniconn.Secure.Handshake.responder_secret
    uniconn.P2p.Operations.relay_channel uniconn.P2p.Operations.check_ack
    uniconn.P2p.Operations.announce_payload uniconn.Secure.Channel.bind
    uniconn.Secure.Channel.channel uniconn.Secure.Channel.close uniconn.Secure.Channel.dispatch
    uniconn.Secure.Channel.handle_data uniconn.Secure.Channel.new uniconn.Secure.Channel.read
    uniconn.Secure.Channel.send uniconn.Secure.Channel.write uniconn.Secure.Data.make_nonce
    uniconn.Secure.Data.open_data uniconn.Secure.Data.peer_error uniconn.Secure.Data.seal_data
accepted = refl

accept_authenticates_example :
    AcceptChecked tcp toy_suite plain_aead clock relay_codec
      (person 10)
      none
      (fp_of 50)
      request
      (fp_of 20)
      30
      41
      to_acceptor
      (value_of accepting accepted).0
accept_authenticates_example =
    accept_authenticates tcp toy_suite plain_aead clock relay_codec (person 10) none (fp_of 50)
      request (fp_of 20) 30 41 to_acceptor (value_of accepting accepted).0
      (value_of accepting accepted).1
