-- ===== src/Secure/Channel/Writing.antt =====
-- What `SecureConn.write` of secure/conn.py puts on the connection below.
use uniconn.Prelude.{
  ℕ, ◌+◌, ◌%◌, ◌^◌, ◌≤◌, ◌<◌, ◌≡◌, refl, sym, subst, false, some, List, [], ◌∷◌, ◌++◌, append_assoc,
  append-nil, arith, length,
}
use uniconn.Outcome.{ok}
use uniconn.Action.{Action, ◌>>=◌}
use uniconn.Struct.{Bytes}
use uniconn.Conn.{Conn}
use uniconn.Conn.Stream.{IsSink}
use uniconn.Secure.Message.{max_message_size}
use uniconn.Secure.Message.RoundTrip.{framed-ok}
use uniconn.Secure.Crypto.{Aead, AeadLaws}
use uniconn.Secure.Data.{seal_data}
use uniconn.Secure.Data.RoundTrip.{counter_limit, sealed, seal_data-ok, length-sealed}
use uniconn.Secure.Frame.{write_frame_to_conn}
use uniconn.Secure.Channel.{SecureConn, write, channel}
use uniconn.Secure.Channel.Wire.{Chunk, frame, wire}

-- `await conn.write(m)` for each message in turn; the counts are dropped.
abbrev pub write_all {ℓ} : {S : Type ℓ} → Conn S → List Bytes → Action S (Unit {0})
write_all conn [] s = (ok tt, s)
write_all conn (m ∷ ms) s = (conn.write m >>= λ _. write_all conn ms) s

-- The chunks that the messages become, from the counter `n` on.
abbrev pub stamped : (ℕ → ℕ) → ℕ → List Bytes → List Chunk
stamped now n [] = []
stamped now n (m ∷ ms) = (now n % 2 ^ 32, m) ∷ stamped now (n + 1) ms

abbrev pub join : List Bytes → Bytes
join [] = []
join (m ∷ ms) = m ++ join ms

-- Each message has bytes, and a DATA body with it is within the frame limit.
abbrev pub AreMessages : List Bytes → Type 0
AreMessages [] = Unit
AreMessages (m ∷ ms) = (0 < length m) × (29 + length m ≤ max_message_size) × AreMessages ms

-- The channel can be written to, and has sent the frames of `out`, as bytes, below it.
pub record CanSend {ℓ κ} {S : Type ℓ} (Sent : S → Bytes → Type κ) (c : SecureConn S) (out : Bytes)
    : Type (ℓ ⊔ κ) where
  pub is_open : c.closed ≡ false
  pub inner : S
  pub bound : c.inner_conn ≡ some inner
  pub key_sized : length c.send_key ≡ 32
  pub pfx_sized : length c.send_pfx ≡ 12
  pub sent : Sent inner out

write-sealed {ℓ} :
    {S : Type ℓ} (conn : Conn S) (aead : Aead) (now : ℕ → ℕ) (c : SecureConn S) (m body : Bytes)
    (s s' : S)
    → c.closed ≡ false
    → c.inner_conn ≡ some s
    → 0 < length m
    → seal_data aead c.send_key c.send_pfx (now c.send_counter % 2 ^ 32) c.send_counter m ≡ ok body
    → write_frame_to_conn conn body s ≡ (ok tt, s')
    → write conn aead now m c
      ≡ (ok (length m), record c { send_counter = c.send_counter + 1; inner_conn = some s' })
unfolding write
write-sealed conn aead now c m body s s' is_open bound some_bytes seal run = ground arith

module _ {ℓ κ} {S : Type ℓ} (conn : Conn S) (Sent : S → Bytes → Type κ)
    (sink : IsSink conn Sent) where
  -- `write_frame_to_conn` writes the four bytes of length and the body, in one write.
  pub write_frame-IsSink :
      (body out : Bytes) (s : S)
      → length body < 4294967296
      → Sent s out
      → (s' : S) × (write_frame_to_conn conn body s ≡ (ok tt, s')) × Sent s' (out ++ frame body)
  unfolding write_frame_to_conn
  write_frame-IsSink body out s small h =
      let a = sink.writes s (frame body) out h in
      (a.after, rw (framed-ok body small, a.runs), a.sent)

  module _ (aead : Aead) (laws : AeadLaws aead) (now : ℕ → ℕ) where
    -- One write of a message sends one frame, under the counter, and the counter moves on.
    pub write-CanSend :
        (c : SecureConn S) (m out : Bytes)
        → 0 < length m
        → 29 + length m ≤ max_message_size
        → c.send_counter < counter_limit
        → CanSend Sent c out
        → let body =
            sealed aead c.send_key c.send_pfx (now c.send_counter % 2 ^ 32) c.send_counter m in
          (s' : S) × (write conn aead now m c
            ≡ (ok (length m), record c { send_counter = c.send_counter + 1; inner_conn = some s' }))
          × Sent s' (out ++ frame body)
    write-CanSend c m out some_bytes fits counter_fits h =
        let ts : ℕ = now c.send_counter % 2 ^ 32 in
        let body : Bytes = sealed aead c.send_key c.send_pfx ts c.send_counter m in
        let ts_fits : ts < 2 ^ 32 = omega arith in
        let (s', run, sent) =
          write_frame-IsSink body out h.inner
            (omega (
              arith,
              length-sealed aead laws c.send_key c.send_pfx ts c.send_counter h.key_sized
                  h.pfx_sized ts_fits counter_fits m,
            ))
            h.sent in
        let seal =
          seal_data-ok aead laws c.send_key c.send_pfx ts c.send_counter h.key_sized h.pfx_sized
            ts_fits counter_fits m in
        (
          s',
          write-sealed conn aead now c m body h.inner s' h.is_open h.bound some_bytes seal run,
          sent,
        )

    -- The messages are sent as the frames that `wire` describes, in order.
    pub write_all-CanSend :
        (c : SecureConn S) (ms : List Bytes) (out : Bytes)
        → AreMessages ms
        → c.send_counter + length ms ≤ counter_limit
        → CanSend Sent c out
        → (c' : SecureConn S) × (write_all (channel conn aead now) ms c ≡ (ok tt, c'))
          × CanSend Sent c' (
              out ++ wire aead c.send_key c.send_pfx c.send_counter (stamped now c.send_counter ms))
          × (c'.send_counter ≡ c.send_counter + length ms)
    unfolding channel
    write_all-CanSend c [] out fit room h =
        (c, refl, subst (CanSend Sent c) (sym (append-nil out)) h, omega arith)
    write_all-CanSend c (m ∷ ms) out (some_bytes, small, fit) room h =
        let n : ℕ = c.send_counter in
        let (s', run, sent) = write-CanSend c m out some_bytes small (omega arith) h in
        let c₁ : SecureConn S = record c { send_counter = n + 1; inner_conn = some s' } in
        let body : Bytes = sealed aead c.send_key c.send_pfx (now n % 2 ^ 32) n m in
        let rest : Bytes = wire aead c.send_key c.send_pfx (n + 1) (stamped now (n + 1) ms) in
        let h₁ : CanSend Sent c₁ (out ++ frame body) = record {
          is_open = h.is_open;
          inner = s';
          bound = refl;
          key_sized = h.key_sized;
          pfx_sized = h.pfx_sized;
          sent = sent;
        } in
        let (c', runs, h', counted) =
          write_all-CanSend c₁ ms (out ++ frame body) fit (omega arith) h₁ in
        (
          c',
          rw run runs,
          subst (CanSend Sent c') (append_assoc out (frame body) rest) h',
          omega arith,
        )
