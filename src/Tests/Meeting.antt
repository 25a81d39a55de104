-- ===== src/Tests/Meeting.antt =====
-- Alice and Bob meet at a relay, with the toy packages.
use uniconn.Prelude.{
  ℕ, ◌+◌, ◌≡◌, ◌≤◌, ◌<◌, sym, append-nil, ◌++◌, refl, true, none, [], ◌∷◌, arith, length,
}
use uniconn.Outcome.{ok}
use uniconn.Struct.{Bytes, to_be}
use uniconn.Tcp.{TcpConn, tcp}
use uniconn.Tcp.Duplex.{Live, tcp-IsDuplex}
use uniconn.Json.{Json, lookup, truthy, truth, string, object, entry, no_fields}
use uniconn.Json.Access.{CodecLaws, subscript, get_or, equals_string}
use uniconn.Secure.Message.{msg_hello, msg_hello_reply, max_message_size}
use uniconn.Secure.Identity.{Identity, sign, verify, compute_fingerprint}
use uniconn.Secure.Channel.{SecureConn, new, bind}
use uniconn.Secure.Channel.Wire.{wire}
use uniconn.Secure.Channel.Link.{IsLinked}
use uniconn.Secure.Channel.Transfer.{Agree}
use uniconn.Secure.Handshake.{derive_keys, import_mlkem}
use uniconn.Secure.Handshake.Agreement.{IsHonest}
use uniconn.P2p.Envelope.{relay_ack, envelope}
use uniconn.P2p.Operations.{relay_channel, check_ack, dial_operation, accept_operation}
use uniconn.P2p.Operations.Meeting.{peers_meet}
use uniconn.Tests.Toys.{toy_suite, toy_suite-SuiteLaws, plain_aead, plain_aead-AeadLaws, peer_sent}
use uniconn.Tests.Dialing.{person, fp_of, clock, relay_codec, reply_of, hello_of}

-- A connection on which `out` was written and `todo` is to be read.
abbrev between : Bytes → Bytes → TcpConn
between out todo = record (peer_sent todo) {
  writer = record (peer_sent todo).writer { written = out };
}

-- What the relay sends under the keys that it has with a node: one message.
abbrev relay_sends : Bytes → Bytes
relay_sends plain =
    let keys = derive_keys toy_suite (40 ∷ 30 ∷ []) in
    wire plain_aead keys.responder_key keys.responder_nonce_pfx 0 ((1_700_000_000, plain) ∷ [])

-- The node `n` has its channel to the relay, on which `plain` is to come.
abbrev with_relay : ℕ → Bytes → SecureConn TcpConn
with_relay n plain =
    bind (between (hello_of n 30) (relay_sends plain))
      (new (derive_keys toy_suite (40 ∷ 30 ∷ [])) true)

abbrev answer : Json
answer = object (entry "success" (truth true) no_fields)

abbrev to_alice : Bytes
to_alice = 123 ∷ 125 ∷ 10 ∷ (reply_of 20 41 ++ [])

abbrev to_bob : Bytes
to_bob = hello_of 10 31 ++ []

alice_relayed :
    relay_channel tcp toy_suite plain_aead clock relay_codec
      (person 10)
      none
      (fp_of 50)
      30
      (peer_sent (reply_of 50 40 ++ relay_sends to_alice))
    ≡ ok (with_relay 10 to_alice)
unfolding uniconn.Secure.Handshake.handshake_initiator uniconn.Secure.Handshake.initiator_secret
    uniconn.Secure.Handshake.import_mlkem uniconn.Secure.Handshake.check_peer
    uniconn.Secure.Handshake.derive_keys uniconn.Secure.Identity.sign uniconn.Secure.Identity.verify
    uniconn.Secure.Identity.compute_fingerprint uniconn.Secure.Message.marshal_hello
    uniconn.Secure.Message.unmarshal_hello uniconn.Secure.Message.field
    uniconn.Secure.Message.field_at uniconn.Secure.Message.framed uniconn.Secure.Message.hello_body
    uniconn.Secure.Message.marshal_data uniconn.Tcp.tcp uniconn.Tcp.answer uniconn.Tcp.counted
    uniconn.Tcp.fill_front uniconn.Tcp.read uniconn.Tcp.write uniconn.Asyncio.drain
    uniconn.Asyncio.writer_write uniconn.Asyncio.reader_read
    uniconn.Secure.Frame.read_frame_from_conn uniconn.Secure.Frame.fill
    uniconn.Secure.Frame.write_frame_to_conn uniconn.Struct.unpack uniconn.Struct.from_be
    uniconn.Struct.from_be_onto uniconn.Struct.pack uniconn.Struct.pack_into uniconn.Struct.to_be
    uniconn.P2p.Operations.relay_channel uniconn.Secure.Channel.bind uniconn.Secure.Channel.new
    uniconn.Secure.Data.make_nonce uniconn.Secure.Data.seal_data
alice_relayed = refl

bob_relayed :
    relay_channel tcp toy_suite plain_aead clock relay_codec
      (person 20)
      none
      (fp_of 50)
      30
      (peer_sent (reply_of 50 40 ++ relay_sends to_bob))
    ≡ ok (with_relay 20 to_bob)
unfolding uniconn.Secure.Handshake.handshake_initiator uniconn.Secure.Handshake.initiator_secret
    uniconn.Secure.Handshake.import_mlkem uniconn.Secure.Handshake.check_peer
    uniconn.Secure.Handshake.derive_keys uniconn.Secure.Identity.sign uniconn.Secure.Identity.verify
    uniconn.Secure.Identity.compute_fingerprint uniconn.Secure.Message.marshal_hello
    uniconn.Secure.Message.unmarshal_hello uniconn.Secure.Message.field
    uniconn.Secure.Message.field_at uniconn.Secure.Message.framed uniconn.Secure.Message.hello_body
    uniconn.Secure.Message.marshal_data uniconn.Tcp.tcp uniconn.Tcp.answer uniconn.Tcp.counted
    uniconn.Tcp.fill_front uniconn.Tcp.read uniconn.Tcp.write uniconn.Asyncio.drain
    uniconn.Asyncio.writer_write uniconn.Asyncio.reader_read
    uniconn.Secure.Frame.read_frame_from_conn uniconn.Secure.Frame.fill
    uniconn.Secure.Frame.write_frame_to_conn uniconn.Struct.unpack uniconn.Struct.from_be
    uniconn.Struct.from_be_onto uniconn.Struct.pack uniconn.Struct.pack_into uniconn.Struct.to_be
    uniconn.P2p.Operations.relay_channel uniconn.Secure.Channel.bind uniconn.Secure.Channel.new
    uniconn.Secure.Data.make_nonce uniconn.Secure.Data.seal_data
bob_relayed = refl

with_relay-IsLinked :
    (n : ℕ) (plain : Bytes)
    → 0 < length plain
    → 29 + length plain ≤ max_message_size
    → IsLinked Live plain_aead 2 (with_relay n plain) plain
unfolding bind new derive_keys
with_relay-IsLinked n plain some_bytes small = record {
  out = hello_of n 30;
  carries = record {
    is_open = refl;
    inner = between (hello_of n 30) (relay_sends plain);
    bound = refl;
    key_sized = refl;
    pfx_sized = refl;
    chunks = (1_700_000_000, plain) ∷ [];
    sendable = (some_bytes, small, omega arith, omega arith, tt);
    incoming = record {
      is_open = refl;
      sound = refl;
      kept = refl;
      flowing = refl;
      arrived_is = refl;
      written_is = refl;
    };
    todo_is = sym (append-nil plain);
  };
  key_sized = refl;
  pfx_sized = refl;
  room = omega arith;
}

alice-IsHonest : IsHonest toy_suite (person 10) none (fp_of 10) msg_hello (31 ∷ []) (10 ∷ 9 ∷ [])
unfolding sign verify compute_fingerprint
alice-IsHonest = record { signs = refl; sendable = omega arith; known = refl; verifies = refl }

bob-IsHonest :
    IsHonest toy_suite (person 20) none (fp_of 20) msg_hello_reply (41 ∷ []) (20 ∷ 9 ∷ [])
unfolding sign verify compute_fingerprint
bob-IsHonest = record { signs = refl; sendable = omega arith; known = refl; verifies = refl }

imported : import_mlkem toy_suite ≡ ok tt
unfolding import_mlkem
imported = refl

answer-CodecLaws : CodecLaws relay_codec (envelope relay_ack answer)
answer-CodecLaws = record { loads_dumps = refl; one_line = (refl, (refl, tt)) }

granted : check_ack (envelope relay_ack answer) ≡ ok tt
unfolding check_ack envelope subscript lookup equals_string get_or truthy
granted = refl

abbrev token : Json
token = object (entry "session_token" (string "t") no_fields)

token_is : subscript "session_token" token ≡ ok (string "t")
unfolding subscript lookup
token_is = refl

some_for_alice : (0 < length to_alice) × (29 + length to_alice ≤ max_message_size)
unfolding to_be
some_for_alice = (omega arith, omega arith)

some_for_bob : (0 < length to_bob) × (29 + length to_bob ≤ max_message_size)
unfolding to_be
some_for_bob = (omega arith, omega arith)

peers_meet_example :
    (i : SecureConn (SecureConn TcpConn)) × (j : SecureConn (SecureConn TcpConn)) × (dial_operation
        tcp toy_suite plain_aead clock relay_codec
        (person 10)
        none
        (fp_of 50)
        (fp_of 20)
        30
        31
        (peer_sent (reply_of 50 40 ++ relay_sends to_alice))
      ≡ ok i)
    × (accept_operation tcp toy_suite plain_aead clock relay_codec
          (person 20)
          none
          (fp_of 50)
          token
          (fp_of 10)
          30
          41
          (peer_sent (reply_of 50 40 ++ relay_sends to_bob))
        ≡ ok j)
    × Agree i j
    × Agree j i
peers_meet_example =
    peers_meet tcp Live tcp Live toy_suite plain_aead clock clock relay_codec relay_codec
      (person 10) (person 20) (fp_of 10) (fp_of 20) none none (fp_of 50) (fp_of 50) 30 30 31 41
      (peer_sent (reply_of 50 40 ++ relay_sends to_alice))
      (peer_sent (reply_of 50 40 ++ relay_sends to_bob)) (with_relay 10 to_alice)
      (with_relay 20 to_bob) answer token (string "t") [] [] (10 ∷ 9 ∷ []) (41 ∷ []) (20 ∷ 9 ∷ [])
      (41 ∷ 31 ∷ []) tcp-IsDuplex tcp-IsDuplex toy_suite-SuiteLaws imported plain_aead-AeadLaws
      alice_relayed bob_relayed (omega arith) answer-CodecLaws (omega arith) granted token_is
      (omega arith) alice-IsHonest bob-IsHonest refl
      (with_relay-IsLinked 10 to_alice some_for_alice.0 some_for_alice.1)
      (with_relay-IsLinked 20 to_bob some_for_bob.0 some_for_bob.1)
