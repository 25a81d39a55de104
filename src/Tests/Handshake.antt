-- ===== src/Tests/Handshake.antt =====
-- The handshake at concrete inputs: identities of one byte, and the check of the toy suite.
use uniconn.Prelude.{ℕ, ◌≡◌, refl, true, false, none, [], ◌∷◌, ◌++◌, arith, take, replicate}
use uniconn.Outcome.{ok}
use uniconn.Struct.{Bytes}
use uniconn.Tcp.{TcpConn, tcp}
use uniconn.Tcp.Duplex.{Live, tcp-IsDuplex}
use uniconn.Secure.Message.{msg_hello, msg_hello_reply}
use uniconn.Secure.Message.RoundTrip.{wire_hello}
use uniconn.Secure.Identity.{Identity, compute_fingerprint, sign, verify}
use uniconn.Secure.Channel.{SecureConn, new, bind}
use uniconn.Secure.Channel.Wire.{frame}
use uniconn.Secure.Channel.Writing.{CanSend}
use uniconn.Secure.Channel.Transfer.{Agree}
use uniconn.Secure.Handshake.{import_mlkem, derive_keys, handshake_initiator, handshake_responder}
use uniconn.Secure.Handshake.Agreement.{IsHonest, message}
use uniconn.Secure.Handshake.Session.{handshake_agrees}
use uniconn.Secure.Handshake.Authentication.{
  InitiatorChecked, ResponderChecked, initiator_authenticates, responder_authenticates,
}
use uniconn.Tests.Toys.{toy_suite, toy_suite-SuiteLaws, peer_sent, peer_sent-Live}

abbrev alice : Identity
alice = record { public_key = 10 ∷ []; secret_key = 10 ∷ [] }

abbrev bob : Identity
bob = record { public_key = 20 ∷ []; secret_key = 20 ∷ [] }

abbrev fp_of : ℕ → Bytes
fp_of n = take 64 (n ∷ replicate 64 7)

abbrev hello_frame : Bytes
hello_frame = frame (wire_hello (message msg_hello alice (30 ∷ []) (10 ∷ 9 ∷ [])))

abbrev reply_frame : Bytes
reply_frame = frame (wire_hello (message msg_hello_reply bob (40 ∷ []) (20 ∷ 9 ∷ [])))

imported : import_mlkem toy_suite ≡ ok tt
unfolding import_mlkem
imported = refl

alice-IsHonest : IsHonest toy_suite alice none (fp_of 10) msg_hello (30 ∷ []) (10 ∷ 9 ∷ [])
unfolding sign verify compute_fingerprint
alice-IsHonest = record { signs = refl; sendable = omega arith; known = refl; verifies = refl }

bob-IsHonest : IsHonest toy_suite bob none (fp_of 20) msg_hello_reply (40 ∷ []) (20 ∷ 9 ∷ [])
unfolding sign verify compute_fingerprint
bob-IsHonest = record { signs = refl; sendable = omega arith; known = refl; verifies = refl }

handshake_agrees_example :
    (i j : SecureConn TcpConn) × (s' r' : TcpConn) × (handshake_initiator tcp toy_suite alice
        (fp_of 20)
        none
        30
        (peer_sent (reply_frame ++ []))
      ≡ (ok i, s'))
    × (handshake_responder tcp toy_suite bob (fp_of 10) none 40 (peer_sent (hello_frame ++ []))
        ≡ (ok j, r'))
    × Agree i j
    × Agree j i
    × CanSend (λ t out. Live t out []) i ([] ++ hello_frame)
    × CanSend (λ t out. Live t out []) j ([] ++ reply_frame)
handshake_agrees_example =
    handshake_agrees tcp Live tcp-IsDuplex tcp Live tcp-IsDuplex toy_suite toy_suite-SuiteLaws
      imported alice bob (fp_of 10) (fp_of 20) none none 30 40 (peer_sent (reply_frame ++ []))
      (peer_sent (hello_frame ++ [])) [] [] [] [] (10 ∷ 9 ∷ []) (40 ∷ []) (20 ∷ 9 ∷ [])
      (40 ∷ 30 ∷ []) alice-IsHonest bob-IsHonest refl (peer_sent-Live (reply_frame ++ []))
      (peer_sent-Live (hello_frame ++ []))

alice_connects :
    (i : SecureConn TcpConn) × (s' : TcpConn) × (handshake_initiator tcp toy_suite alice
        (fp_of 20)
        none
        30
        (peer_sent (reply_frame ++ []))
      ≡ (ok i, s'))
alice_connects =
    let r =
      handshake_agrees tcp Live tcp-IsDuplex tcp Live tcp-IsDuplex toy_suite toy_suite-SuiteLaws
        imported alice bob (fp_of 10) (fp_of 20) none none 30 40 (peer_sent (reply_frame ++ []))
        (peer_sent (hello_frame ++ [])) [] [] [] [] (10 ∷ 9 ∷ []) (40 ∷ []) (20 ∷ 9 ∷ [])
        (40 ∷ 30 ∷ []) alice-IsHonest bob-IsHonest refl (peer_sent-Live (reply_frame ++ []))
        (peer_sent-Live (hello_frame ++ [])) in
    (r.0, r.2, r.4)

bob_accepts :
    (j : SecureConn TcpConn) × (r' : TcpConn) × (handshake_responder tcp toy_suite bob
        (fp_of 10)
        none
        40
        (peer_sent (hello_frame ++ []))
      ≡ (ok j, r'))
bob_accepts =
    let r =
      handshake_agrees tcp Live tcp-IsDuplex tcp Live tcp-IsDuplex toy_suite toy_suite-SuiteLaws
        imported alice bob (fp_of 10) (fp_of 20) none none 30 40 (peer_sent (reply_frame ++ []))
        (peer_sent (hello_frame ++ [])) [] [] [] [] (10 ∷ 9 ∷ []) (40 ∷ []) (20 ∷ 9 ∷ [])
        (40 ∷ 30 ∷ []) alice-IsHonest bob-IsHonest refl (peer_sent-Live (reply_frame ++ []))
        (peer_sent-Live (hello_frame ++ [])) in
    (r.1, r.3, r.5)

initiator_authenticates_example :
    (secret : Bytes) × InitiatorChecked tcp toy_suite alice
      (fp_of 20)
      none
      30
      (peer_sent (reply_frame ++ []))
      alice_connects.1
      secret
    × (alice_connects.0 ≡ bind alice_connects.1 (new (derive_keys toy_suite secret) true))
initiator_authenticates_example =
    initiator_authenticates tcp toy_suite alice (fp_of 20) none 30 (peer_sent (reply_frame ++ []))
      alice_connects.1 alice_connects.0 alice_connects.2

responder_authenticates_example :
    (secret : Bytes) × ResponderChecked tcp toy_suite bob
      (fp_of 10)
      none
      40
      (peer_sent (hello_frame ++ []))
      bob_accepts.1
      secret
    × (bob_accepts.0 ≡ bind bob_accepts.1 (new (derive_keys toy_suite secret) false))
responder_authenticates_example =
    responder_authenticates tcp toy_suite bob (fp_of 10) none 40 (peer_sent (hello_frame ++ []))
      bob_accepts.1 bob_accepts.0 bob_accepts.2
