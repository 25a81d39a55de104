-- ===== src/Tests/Relay.antt =====
-- The messages of p2p/node.py at concrete inputs.
use uniconn.Prelude.{
  ℕ, ◌≡◌, ◌++◌, refl, true, [], ◌∷◌, zero, suc, length-replicate, replicate, arith,
}
use uniconn.Outcome.{ok, raised}
use uniconn.Struct.{Bytes}
use uniconn.Tcp.{TcpConn, tcp}
use uniconn.Tcp.Duplex.{Live, tcp-IsDuplex}
use uniconn.Json.{Json, truth, object, entry, no_fields}
use uniconn.Json.Access.{JsonCodec, CodecLaws, NoNewline}
use uniconn.P2p.Envelope.{relay_ack, envelope, max_line, too_large, read_envelope, write_envelope}
use uniconn.P2p.Envelope.Exchange.{envelope_exchange, read_envelope-too_large}
use uniconn.Tests.Toys.{peer_sent, peer_sent-Live}

abbrev granted : Json
granted = object (entry "success" (truth true) no_fields)

-- A codec that knows one text, `{}`, and one value.
abbrev one_text : Json → JsonCodec
one_text v = record { loads = λ line. ok v; dumps = λ w. 123 ∷ 125 ∷ [] }

one_text-CodecLaws : CodecLaws (one_text (envelope relay_ack granted)) (envelope relay_ack granted)
one_text-CodecLaws = record { loads_dumps = refl; one_line = (refl, (refl, tt)) }

envelope_exchange_example :
    (s' : TcpConn) × (r' : TcpConn) × (write_envelope tcp
        (one_text (envelope relay_ack granted))
        relay_ack
        granted
        (peer_sent [])
      ≡ (ok 3, s'))
    × Live s' (123 ∷ 125 ∷ 10 ∷ []) []
    × (read_envelope tcp
          (one_text (envelope relay_ack granted))
          (peer_sent (123 ∷ 125 ∷ 10 ∷ 5 ∷ []))
        ≡ (ok (envelope relay_ack granted), r'))
    × Live r' [] (5 ∷ [])
envelope_exchange_example =
    envelope_exchange tcp (λ t out. Live t out []) tcp (λ t todo. Live t [] todo)
      (one_text (envelope relay_ack granted)) relay_ack granted [] (5 ∷ []) (peer_sent [])
      (peer_sent (123 ∷ 125 ∷ 10 ∷ 5 ∷ [])) (tcp-IsDuplex.sink []) (tcp-IsDuplex.stream [])
      one_text-CodecLaws (omega arith) (peer_sent-Live [])
      (peer_sent-Live (123 ∷ 125 ∷ 10 ∷ 5 ∷ []))

NoNewline-replicate : (n : ℕ) → NoNewline (replicate n 7)
NoNewline-replicate zero = tt
NoNewline-replicate (suc n) = (refl, NoNewline-replicate n)

abbrev long_line : Bytes
long_line = replicate max_line 7

read_envelope-too_large_example :
    (s' : TcpConn) × (read_envelope tcp (one_text (truth true)) (peer_sent (long_line ++ (5 ∷ [])))
      ≡ (raised too_large, s'))
    × Live s' [] (5 ∷ [])
read_envelope-too_large_example =
    read_envelope-too_large tcp (λ t todo. Live t [] todo) (tcp-IsDuplex.stream [])
      (one_text (truth true)) long_line (5 ∷ []) (peer_sent (long_line ++ (5 ∷ [])))
      (NoNewline-replicate max_line) (length-replicate {A = ℕ} max_line 7)
      (peer_sent-Live (long_line ++ (5 ∷ [])))
