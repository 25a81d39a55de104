-- ===== src/Secure/Data/RoundTrip.antt =====
-- Sealing a DATA message and opening it.
use uniconn.Prelude.{
  ℕ, ◌+◌, ◌-◌, ◌^◌, ◌≤◌, ◌<◌, ◌≡◌, refl, sym, ap, ◌∙◌, [], ◌∷◌, ◌++◌, append_assoc, append-nil,
  arith, length, take, drop, replicate, length-append, take-append_exact, drop-append_exact,
  drop-drop, le→ltb_false, ==_refl, true,
}
use uniconn.Outcome.{ok}
use uniconn.Struct.{Bytes, to_be, slice}
use uniconn.Struct.RoundTrip.{length-to_be, pack-ok, unpack-to_be, pack_into-ok}
use uniconn.Secure.Message.{marshal_data, msg_data}
use uniconn.Secure.Crypto.{Aead, AeadLaws}
use uniconn.Secure.Data.{make_nonce, plaintext_or_error, open_data, seal_data}

abbrev pub ts_limit : ℕ
ts_limit = 2 ^ 32

abbrev pub counter_limit : ℕ
counter_limit = 2 ^ 64

-- The nonce on 24 bytes.
abbrev pub nonce_bytes : Bytes → ℕ → ℕ → Bytes
nonce_bytes pfx ts counter = pfx ++ (to_be 4 ts ++ to_be 8 counter)

pub make_nonce-ok :
    (pfx : Bytes) (ts counter : ℕ)
    → length pfx ≡ 12
    → ts < ts_limit
    → counter < counter_limit
    → make_nonce pfx ts counter ≡ ok (nonce_bytes pfx ts counter)
unfolding make_nonce
make_nonce-ok pfx ts counter sized ts_fits counter_fits =
    let zeros : Bytes = replicate 8 0 in
    let stamped : Bytes = pfx ++ to_be 4 ts in
    rw (
      pack_into-ok 4 ts 12 pfx (replicate 4 0) zeros (sym sized) refl ts_fits,
      ← append_assoc pfx (to_be 4 ts) zeros,
      pack_into-ok 8 counter 16 stamped zeros []
          (omega (arith, length-append pfx (to_be 4 ts), length-to_be 4 ts)) refl counter_fits,
      append-nil (to_be 8 counter),
      append_assoc pfx (to_be 4 ts) (to_be 8 counter),
    )

pub length-nonce_bytes :
    (pfx : Bytes) (ts counter : ℕ) → length pfx ≡ 12 → length (nonce_bytes pfx ts counter) ≡ 24
length-nonce_bytes pfx ts counter sized = omega (
  arith,
  length-append pfx (to_be 4 ts ++ to_be 8 counter),
  length-append (to_be 4 ts) (to_be 8 counter),
  length-to_be 4 ts,
  length-to_be 8 counter,
)

-- A DATA body on the wire.
abbrev pub wire_data : ℕ → ℕ → Bytes → Bytes
wire_data ts counter ciphertext = msg_data ∷ (to_be 4 ts ++ (to_be 8 counter ++ ciphertext))

module _ (ts counter : ℕ) (ciphertext : Bytes) (ts_fits : ts < ts_limit)
    (counter_fits : counter < counter_limit) where
  marshal_data-ok : marshal_data ts counter ciphertext ≡ ok (wire_data ts counter ciphertext)
  unfolding marshal_data
  marshal_data-ok = rw (pack-ok 4 ts ts_fits, pack-ok 8 counter counter_fits)

  pub length-wire_data : length (wire_data ts counter ciphertext) ≡ 13 + length ciphertext
  length-wire_data = omega (
    arith,
    length-append (to_be 4 ts) (to_be 8 counter ++ ciphertext),
    length-append (to_be 8 counter) ciphertext,
    length-to_be 4 ts,
    length-to_be 8 counter,
  )

  ts_slice : slice 1 5 (wire_data ts counter ciphertext) ≡ to_be 4 ts
  ts_slice =
      take-append_exact 4 (to_be 4 ts) (to_be 8 counter ++ ciphertext) (sym (length-to_be 4 ts))

  behind_ts : drop 5 (wire_data ts counter ciphertext) ≡ to_be 8 counter ++ ciphertext
  behind_ts =
      drop-append_exact 4 (to_be 4 ts) (to_be 8 counter ++ ciphertext) (sym (length-to_be 4 ts))

  counter_slice : slice 5 13 (wire_data ts counter ciphertext) ≡ to_be 8 counter
  counter_slice =
      ap (take 8) behind_ts
      ∙ take-append_exact 8 (to_be 8 counter) ciphertext (sym (length-to_be 8 counter))

  behind_counter : drop 13 (wire_data ts counter ciphertext) ≡ ciphertext
  behind_counter =
      sym (drop-drop 8 5 (wire_data ts counter ciphertext))
      ∙ (ap (drop 8) behind_ts
          ∙ drop-append_exact 8 (to_be 8 counter) ciphertext (sym (length-to_be 8 counter)))

-- What a sealed message looks like on the wire.
abbrev pub sealed : Aead → Bytes → Bytes → ℕ → ℕ → Bytes → Bytes
sealed aead key pfx ts counter plain =
    let (ciphertext, tag) = aead.encrypt_and_digest key (nonce_bytes pfx ts counter) plain in
    wire_data ts counter (ciphertext ++ tag)

module _ (aead : Aead) (laws : AeadLaws aead) (key pfx : Bytes) (ts counter : ℕ)
    (key_sized : length key ≡ 32) (pfx_sized : length pfx ≡ 12) (ts_fits : ts < ts_limit)
    (counter_fits : counter < counter_limit) where
  accepted : aead.accepts key (nonce_bytes pfx ts counter) ≡ true
  accepted =
      laws.accepts_sizes key (nonce_bytes pfx ts counter) key_sized
        (length-nonce_bytes pfx ts counter pfx_sized)

  -- Opening a body whose parts are known comes down to the decryption.
  open_data-parts :
      (body ciphertext : Bytes)
      → 13 ≤ length body
      → slice 1 5 body ≡ to_be 4 ts
      → slice 5 13 body ≡ to_be 8 counter
      → drop 13 body ≡ ciphertext
      → open_data aead key pfx counter body
        ≡ plaintext_or_error (
            aead.decrypt_and_verify key
              (nonce_bytes pfx ts counter)
              (take (length ciphertext - 16) ciphertext)
              (drop (length ciphertext - 16) ciphertext))
  unfolding open_data
  open_data-parts body ciphertext long ts_here counter_here rest_here = rw (
    le→ltb_false (length body) 13 long,
    ts_here,
    unpack-to_be 4 ts ts_fits,
    counter_here,
    unpack-to_be 8 counter counter_fits,
    ==_refl counter,
    make_nonce-ok pfx ts counter pfx_sized ts_fits counter_fits,
    accepted,
    rest_here,
  )

  pub seal_data-ok :
      (plain : Bytes)
      → seal_data aead key pfx ts counter plain ≡ ok (sealed aead key pfx ts counter plain)
  unfolding seal_data
  seal_data-ok plain =
      let (ciphertext, tag) = aead.encrypt_and_digest key (nonce_bytes pfx ts counter) plain in
      rw (make_nonce-ok pfx ts counter pfx_sized ts_fits counter_fits, accepted)
        (marshal_data-ok ts counter (ciphertext ++ tag) ts_fits counter_fits)

  -- The receiver that expects `counter` opens what the sender sealed under it.
  pub open_data-sealed :
      (plain : Bytes)
      → open_data aead key pfx counter (sealed aead key pfx ts counter plain) ≡ ok plain
  open_data-sealed plain =
      let n : Bytes = nonce_bytes pfx ts counter in
      let ciphertext : Bytes = (aead.encrypt_and_digest key n plain).0 in
      let tag : Bytes = (aead.encrypt_and_digest key n plain).1 in
      let both : Bytes = ciphertext ++ tag in
      let cut : length both - 16 ≡ length ciphertext =
        omega (arith, length-append ciphertext tag, laws.tag_size key n plain) in
      open_data-parts (sealed aead key pfx ts counter plain) both
        (omega (arith, length-wire_data ts counter both ts_fits counter_fits))
        (ts_slice ts counter both ts_fits counter_fits)
        (counter_slice ts counter both ts_fits counter_fits)
        (behind_counter ts counter both ts_fits counter_fits)
      ∙ rw (
        cut,
        take-append_exact (length ciphertext) ciphertext tag refl,
        drop-append_exact (length ciphertext) ciphertext tag refl,
        laws.opens key n plain,
      )

  pub length-sealed :
      (plain : Bytes) → length (sealed aead key pfx ts counter plain) ≡ 29 + length plain
  length-sealed plain =
      let n : Bytes = nonce_bytes pfx ts counter in
      let ciphertext : Bytes = (aead.encrypt_and_digest key n plain).0 in
      let tag : Bytes = (aead.encrypt_and_digest key n plain).1 in
      omega (
        arith,
        length-wire_data ts counter (ciphertext ++ tag) ts_fits counter_fits,
        length-append ciphertext tag,
        laws.tag_size key n plain,
        laws.ciphertext_size key n plain,
      )
