-- ===== src/Secure/Channel/Transfer.antt =====
-- Two ends of a secure channel: writing at one, reading at the other.
use uniconn.Prelude.{
  ℕ, suc, ◌+◌, ◌≤◌, ◌≡◌, refl, sym, ap, ◌∙◌, subst, false, some, List, [], ◌∷◌, ◌++◌, append-nil,
  arith, length, replicate, length-replicate,
}
use uniconn.Outcome.{ok, Exn}
use uniconn.Struct.{Bytes}
use uniconn.Conn.{Conn}
use uniconn.Conn.Stream.{IsStream, IsSink}
use uniconn.Secure.Crypto.{Aead, AeadLaws}
use uniconn.Secure.Data.RoundTrip.{counter_limit}
use uniconn.Secure.Frame.{fill}
use uniconn.Secure.Frame.Reading.{fill-IsStream}
use uniconn.Secure.Channel.{SecureConn, channel}
use uniconn.Secure.Channel.Reading.{Carries, channel-IsStream}
use uniconn.Secure.Channel.Wire.{wire, plain_of, AreSendable}
use uniconn.Secure.Channel.Writing.{
  write_all, stamped, join, AreMessages, CanSend, write_all-CanSend,
}

-- What was stamped and numbered by the writer is what the reader expects.
stamped-AreSendable :
    (now : ℕ → ℕ) (n : ℕ) (ms : List Bytes)
    → AreMessages ms
    → n + length ms ≤ counter_limit
    → AreSendable n (stamped now n ms)
stamped-AreSendable now n [] fit room = tt
stamped-AreSendable now n (m ∷ ms) (some_bytes, small, fit) room = (
  some_bytes,
  small,
  omega arith,
  omega arith,
  stamped-AreSendable now (n + 1) ms fit (omega arith),
)

plain_of-stamped : (now : ℕ → ℕ) (n : ℕ) (ms : List Bytes) → plain_of (stamped now n ms) ≡ join ms
plain_of-stamped now n [] = refl
plain_of-stamped now n (m ∷ ms) = ap (λ t. m ++ t) (plain_of-stamped now (n + 1) ms)

-- The end `r` is open, has nothing buffered, and expects what the end `w` sends under.
pub record Agree {ℓ κ} {S : Type ℓ} {R : Type κ} (w : SecureConn S) (r : SecureConn R)
    : Type 0 where
  pub is_open : r.closed ≡ false
  pub empty : r.recv_buf ≡ []
  pub same_key : r.recv_key ≡ w.send_key
  pub same_pfx : r.recv_pfx ≡ w.send_pfx
  pub same_counter : r.recv_counter ≡ w.send_counter

module _ {ℓ κ μ ν} {S : Type ℓ} {R : Type κ} (conn : Conn S) (Sent : S → Bytes → Type μ)
    (sink : IsSink conn Sent) (peer : Conn R) (Holds : R → Bytes → Type ν)
    (stream : IsStream peer Holds) (aead : Aead) (laws : AeadLaws aead) (now now' : ℕ → ℕ) where
  sent-Carries :
      (w : SecureConn S) (r : SecureConn R) (ms : List Bytes) (inner : R)
      → AreMessages ms
      → w.send_counter + length ms ≤ counter_limit
      → length w.send_key ≡ 32
      → length w.send_pfx ≡ 12
      → Agree w r
      → r.inner_conn ≡ some inner
      → Holds inner (wire aead w.send_key w.send_pfx w.send_counter (stamped now w.send_counter ms))
      → Carries Holds aead r (join ms)
  sent-Carries w r ms inner fit room key_sized pfx_sized agree bound incoming = record {
    is_open = agree.is_open;
    inner = inner;
    bound = bound;
    key_sized = ap length agree.same_key ∙ key_sized;
    pfx_sized = ap length agree.same_pfx ∙ pfx_sized;
    chunks = stamped now w.send_counter ms;
    sendable = rw agree.same_counter (stamped-AreSendable now w.send_counter ms fit room);
    incoming = rw (agree.same_key, agree.same_pfx, agree.same_counter) incoming;
    todo_is = rw agree.empty (sym (plain_of-stamped now w.send_counter ms));
  }

  -- Messages, each of at least one byte and within the frame limit, are written at one end of a
  -- channel. The calls succeed, and what they have written below the channel is the frames of the
  -- messages, in order. If those frames come in at an end that agrees on the keys and the counter,
  -- the loop of `read_frame_from_conn`, asked there for as many bytes as the messages have, returns
  -- the messages, joined in order.
  pub channel_transfers :
      (w : SecureConn S) (r : SecureConn R) (ms : List Bytes) (out : Bytes) (inner : R) (eof : Exn)
      → AreMessages ms
      → w.send_counter + length ms ≤ counter_limit
      → CanSend Sent w out
      → Agree w r
      → r.inner_conn ≡ some inner
      → Holds inner (wire aead w.send_key w.send_pfx w.send_counter (stamped now w.send_counter ms))
      → let size = length (join ms) in
        (w' : SecureConn S) × (r' : SecureConn R) × (write_all (channel conn aead now) ms w
          ≡ (ok tt, w'))
        × CanSend Sent w'
            (out ++ wire aead w.send_key w.send_pfx w.send_counter (stamped now w.send_counter ms))
        × (fill (channel peer aead now') eof (suc size) size 0 (replicate size 0) r
            ≡ (ok (join ms), r'))
  channel_transfers w r ms out inner eof fit room h agree bound incoming =
      let size : ℕ = length (join ms) in
      let (w', run, h', _) = write_all-CanSend conn Sent sink aead laws now w ms out fit room h in
      let carried =
        sent-Carries w r ms inner fit room h.key_sized h.pfx_sized agree bound incoming in
      let (r', filled, _) =
        fill-IsStream (channel peer aead now') (Carries Holds aead)
          (channel-IsStream peer Holds stream aead laws now') eof (suc size) size 0 []
          (replicate size 0) (join ms) [] r (omega arith) refl (omega arith)
          (length-replicate size 0)
          (subst (Carries Holds aead r) (sym (append-nil (join ms))) carried) in
      (w', r', run, h', filled)
