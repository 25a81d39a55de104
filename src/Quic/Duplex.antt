-- ===== src/Quic/Duplex.antt =====
-- `QuicConn` of uniconn-py/uniconn/quic/conn.py beside the TCP adapter, and the contract of a
-- connection.
use uniconn.Prelude.{◌≡◌, ap, ◌∙◌, arith}
use uniconn.Struct.{Bytes}
use uniconn.Conn.Stream.{IsDuplex}
use uniconn.Tcp.{TcpConn, tcp}
use uniconn.Tcp
use uniconn.Tcp.Duplex.{Live, tcp-IsDuplex}
use uniconn.Quic.{QuicConn, read, write, quic}

-- What the two adapters have in common.
abbrev pub as_tcp : QuicConn → TcpConn
as_tcp c = record { reader = c.reader; writer = c.writer; closed = c.closed }

abbrev pub with_tcp : TcpConn → QuicConn → QuicConn
with_tcp t c = record c { reader = t.reader; writer = t.writer; closed = t.closed }

read-as_tcp :
    (c : QuicConn) (buf : Bytes)
    → read buf c ≡ ((Tcp.read buf (as_tcp c)).0, with_tcp (Tcp.read buf (as_tcp c)).1 c)
unfolding read Tcp.read
read-as_tcp c buf = ground arith

write-as_tcp :
    (c : QuicConn) (m : Bytes)
    → write m c ≡ ((Tcp.write m (as_tcp c)).0, with_tcp (Tcp.write m (as_tcp c)).1 c)
unfolding write Tcp.write
write-as_tcp c m = ground arith

-- Over a transport with nothing wrong, an open QUIC connection is a duplex connection.
pub quic-IsDuplex : IsDuplex quic (λ c out todo. Live (as_tcp c) out todo)
quic-IsDuplex = record {
  stream = λ out. record {
    reads = λ c buf todo room more h.
        let d = (tcp-IsDuplex.stream out).reads (as_tcp c) buf todo room more h in
        record {
          got = d.got;
          rest = d.rest;
          after = with_tcp d.after c;
          runs = unfold quic tcp in read-as_tcp c buf ∙ ap (λ t. (t.0, with_tcp t.1 c)) d.runs;
          some_bytes = d.some_bytes;
          fits = d.fits;
          splits = d.splits;
          holds = d.holds;
        };
  };
  sink = λ todo. record {
    writes = λ c m out h.
        let w = (tcp-IsDuplex.sink todo).writes (as_tcp c) m out h in
        record {
          after = with_tcp w.after c;
          runs = unfold quic tcp in write-as_tcp c m ∙ ap (λ t. (t.0, with_tcp t.1 c)) w.runs;
          sent = w.sent;
        };
  };
}
