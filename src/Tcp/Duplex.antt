-- ===== src/Tcp/Duplex.antt =====
-- `TcpConn` of uniconn-py/uniconn/tcp/conn.py and the contract of a connection.
use uniconn.Prelude.{
  ℕ, ◌<◌, ◌≡◌, refl, sym, ap, ◌∙◌, false, none, [], ◌∷◌, ◌++◌, arith, length, take, drop,
  length-take, take-append-drop, min, if◌then◌else◌,
}
use uniconn.Outcome.{ok, raised, pending}
use uniconn.Struct.{Bytes}
use uniconn.Asyncio.{reader_read, writer_write, drain}
use uniconn.Conn.Stream.{Delivers, IsDuplex}
use uniconn.Tcp.{TcpConn, fill_front, read, write, close, tcp, connection_closed}

-- `out` was written, and `todo` has arrived and was not read; nothing is wrong with the transport.
pub record Live (c : TcpConn) (out todo : Bytes) : Type 0 where
  pub is_open : c.closed ≡ false
  pub sound : c.reader.failure ≡ none
  pub kept : c.writer.lost ≡ false
  pub flowing : c.writer.paused ≡ false
  pub arrived_is : c.reader.arrived ≡ todo
  pub written_is : c.writer.written ≡ out

read-arrived :
    (c : TcpConn) (buf out : Bytes) (b : ℕ) (bs : Bytes)
    → 0 < length buf
    → Live c out (b ∷ bs)
    → read buf c ≡ (
      ok (fill_front buf (take (length buf) (b ∷ bs))),
      record c { reader = record c.reader { arrived = drop (length buf) (b ∷ bs) } },
    )
unfolding read reader_read
read-arrived c buf out b bs room h = ground arith

fill_front_lem :
    (buf d : Bytes) → 0 < length d → fill_front buf d ≡ (length d, d ++ drop (length d) buf)
unfolding fill_front
fill_front_lem buf [] h = absurd (omega arith)
fill_front_lem buf (b ∷ bs) h = refl

reads-cons :
    (c : TcpConn) (buf out : Bytes) (b : ℕ) (bs : Bytes)
    → 0 < length buf
    → Live c out (b ∷ bs)
    → Delivers tcp (λ t todo. Live t out todo) c buf (b ∷ bs)
reads-cons c buf out b bs room h =
    let n : ℕ = length buf in
    let got : Bytes = take n (b ∷ bs) in
    let size : length got ≡ min n (length (b ∷ bs)) = length-take n (b ∷ bs) in
    let after : TcpConn = record c { reader = record c.reader { arrived = drop n (b ∷ bs) } } in
    record {
      got = got;
      rest = drop n (b ∷ bs);
      after = after;
      runs =
          unfold tcp in
          read-arrived c buf out b bs room h
          ∙ ap (λ t. (ok t, after)) (fill_front_lem buf got (omega arith));
      some_bytes = omega arith;
      fits = omega arith;
      splits = sym (take-append-drop n (b ∷ bs));
      holds = record {
        is_open = h.is_open;
        sound = h.sound;
        kept = h.kept;
        flowing = h.flowing;
        arrived_is = refl;
        written_is = h.written_is;
      };
    }

tcp-reads :
    (c : TcpConn) (buf out todo : Bytes)
    → 0 < length buf
    → 0 < length todo
    → Live c out todo
    → Delivers tcp (λ t rest. Live t out rest) c buf todo
tcp-reads c buf out [] room more h = absurd (omega arith)
tcp-reads c buf out (b ∷ bs) room more h = reads-cons c buf out b bs room h

write_runs :
    (c : TcpConn) (m out todo : Bytes)
    → Live c out todo
    → write m c
      ≡ (ok (length m), record c { writer = record c.writer { written = c.writer.written ++ m } })
unfolding write writer_write drain
write_runs c m out todo h = ground arith

-- Over a transport with nothing wrong, an open TCP connection is a duplex connection: what has
-- arrived is read in order, at least one byte a call, and what is written goes out in order and whole.
pub tcp-IsDuplex : IsDuplex tcp Live
tcp-IsDuplex = record {
  stream = λ out. record { reads = λ c buf todo room more h. tcp-reads c buf out todo room more h };
  sink = λ todo. record {
    writes = λ c m out h. record {
      after = record c { writer = record c.writer { written = c.writer.written ++ m } };
      runs = unfold tcp in write_runs c m out todo h;
      sent = record {
        is_open = h.is_open;
        sound = h.sound;
        kept = h.kept;
        flowing = h.flowing;
        arrived_is = h.arrived_is;
        written_is = ap (λ t. t ++ m) h.written_is;
      };
    };
  };
}

-- After `close`, `read` and `write` raise ConnectionClosedError and change nothing, and so does any
-- further `close`, which returns.
pub closed_refuses :
    (c : TcpConn) (buf m : Bytes)
    → let c' = (close c).1 in
      (read buf c' ≡ (raised connection_closed, c'))
      × (write m c' ≡ (raised connection_closed, c'))
      × (close c' ≡ (ok tt, c'))
unfolding read write close
closed_refuses c buf m = (ground arith, ground arith, ground arith)

-- At the end of the peer's stream `read` returns 0 and leaves the buffer and the connection alone;
-- before it, with nothing arrived, a read into a non-empty buffer waits.
pub read_nothing :
    (c : TcpConn) (buf : Bytes)
    → c.closed ≡ false
    → c.reader.failure ≡ none
    → c.reader.arrived ≡ []
    → 0 < length buf
    → read buf c ≡ (if c.reader.at_eof then (ok (0, buf), c) else (pending, c))
unfolding read reader_read fill_front
read_nothing c buf is_open sound empty room = ground arith
