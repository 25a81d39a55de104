-- ===== src/Secure/Data.antt =====
-- The DATA and ERROR messages of uniconn-py/uniconn/secure/conn.py, without the connection's state.
pub mod RoundTrip
use uniconn.Prelude.{
  ℕ, suc, ◌+◌, ◌-◌, Bool, true, false, not, ◌&&◌, Option, none, some, List, [], ◌∷◌, ◌++◌, ltb, leb,
  ◌==◌, length, take, drop, replicate, if◌then◌else◌,
}
use uniconn.Outcome.{
  Outcome, ok, raised, Exn, exn, connection_error, value_error, text, text_bytes, ◌>>=◌, ◌>>◌,
  reject,
}
use uniconn.Struct.{Bytes, from_be, unpack, pack_into, slice, set_slice}
use uniconn.Secure.Message.{nonce_size, nonce_prefix_size, timestamp_size, marshal_data}
use uniconn.Secure.Crypto.{Aead}

-- `cipher.decrypt_and_verify` within its `try`.
abbrev pub plaintext_or_error : Option Bytes → Outcome Bytes
plaintext_or_error none = raised (exn value_error (text "AEAD decrypt failed: tag mismatch"))
plaintext_or_error (some plain) = ok plain

-- The nonce of `_handle_data` and `_write`: the prefix, the time stamp and the counter.
unfoldable pub make_nonce : Bytes → ℕ → ℕ → Outcome Bytes
make_nonce pfx ts counter =
    let nonce = set_slice 0 nonce_prefix_size pfx (replicate nonce_size 0) in
    do
      stamped ← pack_into 4 nonce nonce_prefix_size ts
      pack_into 8 stamped (nonce_prefix_size + timestamp_size) counter

-- The message of the ConnectionError for a peer's ERROR frame. The reason is kept as its bytes.
unfoldable pub peer_error : Bytes → Exn
unfolding from_be
peer_error body =
    let r_len = from_be (slice 1 3 body) in
    if leb 3 (length body) && leb (3 + r_len) (length body)
    then exn connection_error (text_bytes "peer error" (slice 3 (3 + r_len) body))
    else exn connection_error (text "peer error: unknown")

-- The checks and the decryption of `_handle_data`, up to the plaintext.
unfoldable pub open_data : Aead → Bytes → Bytes → ℕ → Bytes → Outcome Bytes
open_data aead key pfx expected body = do
  reject (ltb (length body) 13) (exn value_error (text "DATA message too short"))
  ts ← unpack 4 (slice 1 5 body)
  counter ← unpack 8 (slice 5 13 body)
  reject (not (counter == expected)) (exn value_error (text "unexpected DATA counter"))
  nonce ← make_nonce pfx ts counter
  reject (not (aead.accepts key nonce)) (exn value_error (text "bad key or nonce length"))
  let ciphertext = drop 13 body
  let cut = length ciphertext - 16
  plaintext_or_error (aead.decrypt_and_verify key nonce (take cut ciphertext) (drop cut ciphertext))

-- The encryption of `_write`: the frame body that carries `plain`.
unfoldable pub seal_data : Aead → Bytes → Bytes → ℕ → ℕ → Bytes → Outcome Bytes
seal_data aead key pfx ts counter plain = do
  nonce ← make_nonce pfx ts counter
  reject (not (aead.accepts key nonce)) (exn value_error (text "bad key or nonce length"))
  let (ciphertext, tag) = aead.encrypt_and_digest key nonce plain
  marshal_data ts counter (ciphertext ++ tag)
