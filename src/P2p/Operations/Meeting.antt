-- ===== src/P2p/Operations/Meeting.antt =====
-- Two nodes of p2p/node.py that meet at a relay: one runs the operation of `dial_peer`, the other that
-- of `_accept_relay_proxy`.
use uniconn.Prelude.{
  ℕ, suc, ◌+◌, ◌≤◌, ◌<◌, ◌≡◌, refl, ◌∙◌, String, true, false, Option, some, [], ◌∷◌, ◌++◌, arith,
  length, length-append,
}
use uniconn.Outcome.{ok}
use uniconn.Struct.{Bytes, to_be}
use uniconn.Struct.RoundTrip.{length-to_be}
use uniconn.Conn.{Conn}
use uniconn.Conn.Stream.{IsDuplex}
use uniconn.Json.{Json, string, object, entry, no_fields}
use uniconn.Json.Access.{JsonCodec, CodecLaws, subscript}
use uniconn.Secure.Message.{Hello, max_message_size, msg_hello, msg_hello_reply}
use uniconn.Secure.Message.RoundTrip.{IsSendable, wire_hello, length-wire_hello}
use uniconn.Secure.Crypto.{Aead, AeadLaws, Suite, SuiteLaws}
use uniconn.Secure.Identity.{Identity}
use uniconn.Secure.Channel.{SecureConn, new, bind, channel}
use uniconn.Secure.Channel.Wire.{frame}
use uniconn.Secure.Channel.Link.{IsLinked, link-IsStream, link-writes}
use uniconn.Secure.Channel.Transfer.{Agree}
use uniconn.Secure.Handshake.{
  VerifyFn, import_mlkem, derive_keys, handshake_initiator, handshake_responder,
}
use uniconn.Secure.Handshake.Agreement.{IsHonest, message, initiator_reads, responder_reads}
use uniconn.Secure.Handshake.Session.{new-Agree}
use uniconn.P2p.Hex.{hex}
use uniconn.P2p.Envelope.{max_line, envelope, relay_req, relay_ack, accept_relay, write_envelope}
use uniconn.P2p.Envelope.Exchange.{read_envelope-IsStream}
use uniconn.P2p.Operations.{check_ack, relay_channel, accept_operation, dial_operation}

-- A HELLO fits into a frame of the channel.
length-hello : (h : Hello) → length (frame (wire_hello h)) ≡ 4 + length (wire_hello h)
length-hello h =
    length-append (to_be 4 (length (wire_hello h))) (wire_hello h)
    ∙ omega (arith, length-to_be 4 (length (wire_hello h)))

length-hello_small :
    (h : Hello) → IsSendable h → 29 + length (frame (wire_hello h)) ≤ max_message_size
length-hello_small h fits = omega (arith, length-hello h, length-wire_hello h, fits)

length-hello_pos : (h : Hello) → 0 < length (frame (wire_hello h))
length-hello_pos h = omega (arith, length-hello h)

module _ {ℓ κ} {S : Type ℓ} (conn : Conn S) (Live : S → Bytes → Bytes → Type κ)
    (duplex : IsDuplex conn Live) (p : Suite) (imported : import_mlkem p ≡ ok tt) (aead : Aead)
    (laws : AeadLaws aead) (now : ℕ → ℕ) (codec : JsonCodec) (me peer : Identity)
    (my_fp peer_fp : Bytes) (verify_fn verify_fn' : Option VerifyFn) (relay_fp : Bytes) where
  -- A message that fits into a frame is written to the channel.
  written :
      (n : ℕ) (sc : SecureConn S) (msg_type : String) (payload : Json) (todo : Bytes)
      → 30 + length (codec.dumps (envelope msg_type payload)) ≤ max_message_size
      → IsLinked Live aead (suc n) sc todo
      → (k : ℕ) × (sc' : SecureConn S) × (write_envelope
            (channel conn aead now)
            codec
            msg_type
            payload
            sc
          ≡ (ok k, sc'))
        × IsLinked Live aead n sc' todo
  unfolding write_envelope
  written n sc msg_type payload todo fits h =
      let line : Bytes = codec.dumps (envelope msg_type payload) in
      let (sc', run, h') =
        link-writes conn Live duplex aead laws now n sc (line ++ (10 ∷ [])) todo
          (omega (arith, length-append line (10 ∷ [])))
          (omega (arith, length-append line (10 ∷ []))) h in
      (_, sc', run, h')

  pub dial_meets :
      (seed seed' : ℕ) (raw : S) (sc : SecureConn S) (answer : Json)
      (more sig ciphertext sig' secret : Bytes)
      → relay_channel conn p aead now codec me verify_fn relay_fp seed raw ≡ ok sc
      → 30
          + length (
              codec.dumps (
                envelope relay_req
                  (object (entry "target_fingerprint" (string (hex peer_fp)) no_fields))))
        ≤ max_message_size
      → CodecLaws codec (envelope relay_ack answer)
      → length (codec.dumps (envelope relay_ack answer)) < max_line
      → check_ack (envelope relay_ack answer) ≡ ok tt
      → IsHonest p me verify_fn' my_fp msg_hello (p.mlkem_keypair seed').0 sig
      → IsHonest p peer verify_fn peer_fp msg_hello_reply ciphertext sig'
      → p.mlkem_decrypt (p.mlkem_keypair seed').1 ciphertext ≡ some secret
      → IsLinked Live aead 2 sc (
          codec.dumps (envelope relay_ack answer)
          ++ (10 ∷ (frame (wire_hello (message msg_hello_reply peer ciphertext sig')) ++ more)))
      → (t : SecureConn S) × (dial_operation conn p aead now codec me verify_fn relay_fp peer_fp
            seed seed' raw
          ≡ ok (bind t (new (derive_keys p secret) true)))
  unfolding dial_operation handshake_initiator
  dial_meets seed seed' raw sc answer more sig ciphertext sig' secret relayed fits codec_laws short
        granted mine theirs opens linked =
      let (k, sc₁, asked, linked₁) = written 1 sc relay_req _ _ fits linked in
      let (sc₂, answered, linked₂) =
        read_envelope-IsStream (channel conn aead now) (IsLinked Live aead 1)
          (link-IsStream conn Live duplex aead laws now 1) codec relay_ack answer _ sc₁ codec_laws
          short linked₁ in
      let hello : Hello = message msg_hello me (p.mlkem_keypair seed').0 sig in
      let (sc₃, sent, linked₃) =
        link-writes conn Live duplex aead laws now 0 sc₂ (frame (wire_hello hello)) _
          (length-hello_pos hello) (length-hello_small hello mine.sendable) linked₂ in
      let (sc₄, run, _) =
        initiator_reads (channel conn aead now) (IsLinked Live aead 0)
          (link-IsStream conn Live duplex aead laws now 0) p me peer my_fp peer_fp verify_fn
          verify_fn' imported seed' _ sc₂ sc₃ more sig ciphertext sig' secret mine theirs opens sent
          linked₃ in
      (sc₄, rw (relayed, asked, answered, granted, run) refl)

  pub accept_meets :
      (seed seed' : ℕ) (raw : S) (sc : SecureConn S) (payload token : Json)
      (more ek sig ciphertext sig' secret : Bytes)
      → relay_channel conn p aead now codec me verify_fn relay_fp seed raw ≡ ok sc
      → subscript "session_token" payload ≡ ok token
      → 30
          + length
              (codec.dumps (envelope accept_relay (object (entry "session_token" token no_fields))))
        ≤ max_message_size
      → IsHonest p peer verify_fn peer_fp msg_hello ek sig
      → IsHonest p me verify_fn' my_fp msg_hello_reply ciphertext sig'
      → p.mlkem_encrypt seed' ek ≡ some (ciphertext, secret)
      → IsLinked Live aead 2 sc (frame (wire_hello (message msg_hello peer ek sig)) ++ more)
      → (t : SecureConn S) × (accept_operation conn p aead now codec me verify_fn relay_fp payload
            peer_fp seed seed' raw
          ≡ ok (bind t (new (derive_keys p secret) false)))
  unfolding accept_operation handshake_responder
  accept_meets seed seed' raw sc payload token more ek sig ciphertext sig' secret relayed token_is
        fits theirs mine encapsulates linked =
      let (k, sc₁, accepted, linked₁) = written 1 sc accept_relay _ _ fits linked in
      let reply : Hello = message msg_hello_reply me ciphertext sig' in
      let (sc₂, run, _) =
        responder_reads (channel conn aead now) (IsLinked Live aead 1)
          (link-IsStream conn Live duplex aead laws now 1) p me peer my_fp peer_fp verify_fn
          verify_fn' imported (λ t. IsLinked Live aead 0 t more) seed' sc₁ more ek sig ciphertext
          sig' secret theirs mine encapsulates linked₁
          (λ t h.
            let (t', sent, h') =
              link-writes conn Live duplex aead laws now 0 t (frame (wire_hello reply)) more
                (length-hello_pos reply) (length-hello_small reply mine.sendable) h in
            (_, t', sent, h')) in
      let established : (handshake_responder (channel conn aead now) p me peer_fp verify_fn seed'
            sc₁).0
          ≡ ok (bind sc₂ (new (derive_keys p secret) false)) =
        rw run refl in
      (sc₂, rw (relayed, token_is, accepted) established)

-- Two honest nodes, each of which knows the fingerprint of the other, have channels to a relay, over
-- any duplex connections, on which two more messages can be sent. At the node that dials come in a
-- RELAY_ACK that reports success and the other node's reply, at the node that accepts the HELLO of the
-- first; and the control messages fit into a frame. Then both operations return a channel, and the two
-- channels, which run through the relay, agree in both directions.
pub peers_meet {ℓ κ μ ν} :
    {S : Type ℓ} {R : Type κ} (conn : Conn S) (LiveS : S → Bytes → Bytes → Type μ) (conn' : Conn R)
    (LiveR : R → Bytes → Bytes → Type ν) (p : Suite) (aead : Aead) (now now' : ℕ → ℕ)
    (codec codec' : JsonCodec) (a b : Identity) (fp_a fp_b : Bytes)
    (verify_a verify_b : Option VerifyFn) (relay_a relay_b : Bytes) (seed_a seed_b seed seed' : ℕ)
    (raw : S) (raw' : R) (sc : SecureConn S) (sc' : SecureConn R) (answer payload token : Json)
    (more more' sig ciphertext sig' secret : Bytes)
    → IsDuplex conn LiveS
    → IsDuplex conn' LiveR
    → SuiteLaws p
    → import_mlkem p ≡ ok tt
    → AeadLaws aead
    → relay_channel conn p aead now codec a verify_a relay_a seed_a raw ≡ ok sc
    → relay_channel conn' p aead now' codec' b verify_b relay_b seed_b raw' ≡ ok sc'
    → 30
        + length (
            codec.dumps (
              envelope relay_req
                (object (entry "target_fingerprint" (string (hex fp_b)) no_fields))))
      ≤ max_message_size
    → CodecLaws codec (envelope relay_ack answer)
    → length (codec.dumps (envelope relay_ack answer)) < max_line
    → check_ack (envelope relay_ack answer) ≡ ok tt
    → subscript "session_token" payload ≡ ok token
    → 30
        + length
            (codec'.dumps (envelope accept_relay (object (entry "session_token" token no_fields))))
      ≤ max_message_size
    → IsHonest p a verify_b fp_a msg_hello (p.mlkem_keypair seed).0 sig
    → IsHonest p b verify_a fp_b msg_hello_reply ciphertext sig'
    → p.mlkem_encrypt seed' (p.mlkem_keypair seed).0 ≡ some (ciphertext, secret)
    → IsLinked LiveS aead 2 sc (
        codec.dumps (envelope relay_ack answer)
        ++ (10 ∷ (frame (wire_hello (message msg_hello_reply b ciphertext sig')) ++ more)))
    → IsLinked LiveR aead 2 sc'
        (frame (wire_hello (message msg_hello a (p.mlkem_keypair seed).0 sig)) ++ more')
    → (i : SecureConn (SecureConn S)) × (j : SecureConn (SecureConn R)) × (dial_operation conn p
          aead now codec a verify_a relay_a fp_b seed_a seed raw
        ≡ ok i)
      × (accept_operation conn' p aead now' codec' b verify_b relay_b payload fp_a seed_b seed' raw'
          ≡ ok j)
      × Agree i j
      × Agree j i
peers_meet conn LiveS conn' LiveR p aead now now' codec codec' a b fp_a fp_b verify_a verify_b
      relay_a relay_b seed_a seed_b seed seed' raw raw' sc sc' answer payload token more more' sig
      ciphertext sig' secret duplexS duplexR suite_laws imported laws relayed relayed' req_fits
      codec_laws short granted token_is accept_fits honest_a honest_b encapsulates linked linked' =
    let opens = suite_laws.decapsulates seed seed' ciphertext secret encapsulates in
    let (s, dialed) =
      dial_meets conn LiveS duplexS p imported aead laws now codec a b fp_a fp_b verify_a verify_b
        relay_a seed_a seed raw sc answer more sig ciphertext sig' secret relayed req_fits
        codec_laws short granted honest_a honest_b opens linked in
    let (r, accepted) =
      accept_meets conn' LiveR duplexR p imported aead laws now' codec' b a fp_b fp_a verify_b
        verify_a relay_b seed_b seed' raw' sc' payload token more' (p.mlkem_keypair seed).0 sig
        ciphertext sig' secret relayed' token_is accept_fits honest_a honest_b encapsulates
        linked' in
    let (there, back) = new-Agree (derive_keys p secret) s r in
    (_, _, dialed, accepted, there, back)
