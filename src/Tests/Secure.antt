-- ===== src/Tests/Secure.antt =====
-- The secure channel, its handshake and its store, at concrete inputs.
use uniconn.Prelude.{ℕ, ◌+◌, ◌≡◌, refl, false, some, List, [], ◌∷◌, ◌++◌, arith, length, replicate}
use uniconn.Outcome.{ok, Exn, exn, connection_error, text}
use uniconn.Struct.{Bytes, to_be, to_be}
use uniconn.Tcp.{TcpConn, tcp}
use uniconn.Tcp.Duplex.{Live, tcp-IsDuplex}
use uniconn.Secure.Frame.{fill, read_frame_from_conn}
use uniconn.Secure.Frame.Reading.{read_frame-IsStream}
use uniconn.Secure.Channel.{SecureConn, channel}
use uniconn.Secure.Message.{Hello, marshal_hello, unmarshal_hello}
use uniconn.Secure.Message.RoundTrip.{unmarshal_hello-marshal_hello}
use uniconn.Secure.Channel.Wire.{wire, frame}
use uniconn.Secure.Channel.Writing.{write_all, stamped, CanSend}
use uniconn.Secure.Channel.Transfer.{Agree, channel_transfers}
use uniconn.Tests.Toys.{plain_aead, plain_aead-AeadLaws, peer_sent, peer_sent-Live}

abbrev end_of_file : Exn
end_of_file = exn connection_error (text "unexpected EOF")

abbrev key_a : Bytes
key_a = replicate 32 1

abbrev key_b : Bytes
key_b = replicate 32 2

abbrev pfx_a : Bytes
pfx_a = replicate 12 3

abbrev pfx_b : Bytes
pfx_b = replicate 12 4

-- Two ends whose counters stand at 5, over connections on which `todo` has arrived.
abbrev end_a : Bytes → SecureConn TcpConn
end_a todo = record {
  send_key = key_a;
  recv_key = key_b;
  send_pfx = pfx_a;
  recv_pfx = pfx_b;
  send_counter = 5;
  recv_counter = 5;
  closed = false;
  recv_buf = [];
  inner_conn = some (peer_sent todo);
}

abbrev end_b : Bytes → SecureConn TcpConn
end_b todo = record {
  send_key = key_b;
  recv_key = key_a;
  send_pfx = pfx_b;
  recv_pfx = pfx_a;
  send_counter = 5;
  recv_counter = 5;
  closed = false;
  recv_buf = [];
  inner_conn = some (peer_sent todo);
}

abbrev clock : ℕ → ℕ
clock n = 1_700_000_000 + n

abbrev messages : List Bytes
messages = (1 ∷ 2 ∷ 3 ∷ []) ∷ (4 ∷ []) ∷ []

abbrev sent_bytes : Bytes
sent_bytes = wire plain_aead key_a pfx_a 5 (stamped clock 5 messages)

end_a-CanSend : CanSend (λ c out. Live c out []) (end_a []) []
end_a-CanSend = record {
  is_open = refl;
  inner = peer_sent [];
  bound = refl;
  key_sized = refl;
  pfx_sized = refl;
  sent = peer_sent-Live [];
}

ends-Agree : (todo todo' : Bytes) → Agree (end_a todo) (end_b todo')
ends-Agree todo todo' = record {
  is_open = refl;
  empty = refl;
  same_key = refl;
  same_pfx = refl;
  same_counter = refl;
}

channel_transfers_example :
    (w' r' : SecureConn TcpConn) × (write_all (channel tcp plain_aead clock) messages (end_a [])
      ≡ (ok tt, w'))
    × CanSend (λ c out. Live c out []) w' ([] ++ sent_bytes)
    × (fill (channel tcp plain_aead clock) end_of_file 5 4 0 (replicate 4 0) (end_b sent_bytes)
        ≡ (ok (1 ∷ 2 ∷ 3 ∷ 4 ∷ []), r'))
channel_transfers_example =
    channel_transfers tcp (λ c out. Live c out []) (tcp-IsDuplex.sink []) tcp
      (λ c todo. Live c [] todo) (tcp-IsDuplex.stream []) plain_aead plain_aead-AeadLaws clock clock
      (end_a []) (end_b sent_bytes) messages [] (peer_sent sent_bytes) end_of_file (omega arith)
      (omega arith) end_a-CanSend (ends-Agree [] sent_bytes) refl (peer_sent-Live sent_bytes)

abbrev small_body : Bytes
small_body = 2 ∷ 7 ∷ 8 ∷ []

read_frame-IsStream_example :
    (s' : TcpConn) × (read_frame_from_conn tcp (peer_sent (frame small_body ++ 5 ∷ []))
      ≡ (ok small_body, s'))
    × Live s' [] (5 ∷ [])
read_frame-IsStream_example =
    read_frame-IsStream tcp (λ c todo. Live c [] todo) (tcp-IsDuplex.stream []) small_body (5 ∷ [])
      (peer_sent (frame small_body ++ 5 ∷ [])) (omega arith)
      (peer_sent-Live (frame small_body ++ 5 ∷ []))

abbrev hello : Hello
hello = record {
  msg_type = 1;
  public_key = 1 ∷ 2 ∷ [];
  payload = 3 ∷ [];
  signature = 4 ∷ 5 ∷ 6 ∷ [];
}

unmarshal_hello-marshal_hello_example :
    (body : Bytes) × (marshal_hello 1 (1 ∷ 2 ∷ []) (3 ∷ []) (4 ∷ 5 ∷ 6 ∷ [])
      ≡ ok (to_be 4 (length body) ++ body))
    × (unmarshal_hello body ≡ ok hello)
unmarshal_hello-marshal_hello_example = unmarshal_hello-marshal_hello hello (record {
  type_fits = omega arith;
  key_fits = omega arith;
  payload_fits = omega arith;
  signature_fits = omega arith;
})
