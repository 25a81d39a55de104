-- ===== src/Secure/Channel/Link.antt =====
-- A `SecureConn` of secure/conn.py as a connection that another protocol runs over: it reads and
-- writes.
use uniconn.Prelude.{ℕ, suc, ◌+◌, ◌≤◌, ◌<◌, ◌≡◌, some, refl, sym, ap, ◌∙◌, arith, length}
use uniconn.Outcome.{ok}
use uniconn.Struct.{Bytes}
use uniconn.Conn.{Conn}
use uniconn.Conn.Stream.{IsStream, IsDuplex}
use uniconn.Secure.Message.{max_message_size}
use uniconn.Secure.Crypto.{Aead, AeadLaws}
use uniconn.Secure.Data.RoundTrip.{counter_limit}
use uniconn.Secure.Channel.{SecureConn, read, channel}
use uniconn.Secure.Channel.Wire.{wire}
use uniconn.Secure.Channel.Reading.{Carries, channel-IsStream}
use uniconn.Secure.Channel.Writing.{CanSend, write-CanSend}
use uniconn.Secure.Channel.Sides.{read-SameSending}

-- At `c`, `todo` can be read, and `n` more messages can be written; `out` was written below.
pub record IsLinked {ℓ κ} {S : Type ℓ} (Live : S → Bytes → Bytes → Type κ) (aead : Aead) (n : ℕ)
    (c : SecureConn S) (todo : Bytes) : Type (ℓ ⊔ κ) where
  pub out : Bytes
  pub carries : Carries (λ s rest. Live s out rest) aead c todo
  pub key_sized : length c.send_key ≡ 32
  pub pfx_sized : length c.send_pfx ≡ 12
  pub room : c.send_counter + n ≤ counter_limit

module _ {ℓ κ} {S : Type ℓ} (conn : Conn S) (Live : S → Bytes → Bytes → Type κ)
    (duplex : IsDuplex conn Live) (aead : Aead) (laws : AeadLaws aead) (now : ℕ → ℕ) where
  -- The channel is a stream, and reading leaves as much room for messages as there was.
  pub link-IsStream : (n : ℕ) → IsStream (channel conn aead now) (IsLinked Live aead n)
  unfolding channel
  link-IsStream n = record {
    reads = λ c buf todo some_room more h.
        let d =
          (channel-IsStream conn (λ s rest. Live s h.out rest) (duplex.stream h.out) aead laws
              now).reads
            c buf todo some_room more h.carries in
        let is_after : (read conn aead buf c).1 ≡ d.after = ap (λ x. x.1) d.runs in
        let kept = read-SameSending conn aead buf c in
        record {
          got = d.got;
          rest = d.rest;
          after = d.after;
          runs = d.runs;
          some_bytes = d.some_bytes;
          fits = d.fits;
          splits = d.splits;
          holds = record {
            out = h.out;
            carries = d.holds;
            key_sized =
                ap (λ x. length x.send_key) (sym is_after)
                ∙ (ap length kept.same_key ∙ h.key_sized);
            pfx_sized =
                ap (λ x. length x.send_pfx) (sym is_after)
                ∙ (ap length kept.same_pfx ∙ h.pfx_sized);
            room = omega (arith, ap (λ x. x.send_counter) is_after, kept.same_counter, h.room);
          };
        };
  }

  -- A message of at least one byte and within the frame limit is written, and leaves what is to be
  -- read as it was.
  pub link-writes :
      (n : ℕ) (c : SecureConn S) (m todo : Bytes)
      → 0 < length m
      → 29 + length m ≤ max_message_size
      → IsLinked Live aead (suc n) c todo
      → (c' : SecureConn S) × ((channel conn aead now).write m c ≡ (ok (length m), c'))
        × IsLinked Live aead n c' todo
  unfolding channel
  link-writes n c m todo some_bytes small h =
      let k = h.carries in
      let rest : Bytes = wire aead c.recv_key c.recv_pfx c.recv_counter k.chunks in
      let can : CanSend (λ s out. Live s out rest) c h.out = record {
        is_open = k.is_open;
        inner = k.inner;
        bound = k.bound;
        key_sized = h.key_sized;
        pfx_sized = h.pfx_sized;
        sent = k.incoming;
      } in
      let (s', run, sent) =
        write-CanSend conn (λ s out. Live s out rest) (duplex.sink rest) aead laws now c m h.out
          some_bytes small (omega (arith, h.room)) can in
      (
        record c { send_counter = c.send_counter + 1; inner_conn = some s' },
        run,
        record {
          out = _;
          carries = record {
            is_open = k.is_open;
            inner = s';
            bound = refl;
            key_sized = k.key_sized;
            pfx_sized = k.pfx_sized;
            chunks = k.chunks;
            sendable = k.sendable;
            incoming = sent;
            todo_is = k.todo_is;
          };
          key_sized = h.key_sized;
          pfx_sized = h.pfx_sized;
          room = omega (arith, h.room);
        },
      )
