-- ===== src/Secure/Channel/Given.antt =====
-- What `_write` of secure/conn.py gives to the cipher, told by the ciphers that it cannot tell apart.
use uniconn.Prelude.{ℕ, ◌%◌, ◌^◌, ◌≡◌, refl, arith}
use uniconn.Outcome.{Outcome, ok, raised, pending}
use uniconn.Struct.{Bytes}
use uniconn.Conn.{Conn}
use uniconn.Secure.Crypto.{Aead}
use uniconn.Secure.Data.{make_nonce, seal_data}
use uniconn.Secure.Channel.{SecureConn, send, write}

-- Two ciphers that do the same with one nonce, under any key and on any text.
pub record SameAt (aead other : Aead) (nonce : Bytes) : Type 0 where
  pub same_accepts : (key : Bytes) → other.accepts key nonce ≡ aead.accepts key nonce
  pub same_result :
      (key plain : Bytes)
      → other.encrypt_and_digest key nonce plain ≡ aead.encrypt_and_digest key nonce plain

module _ (aead other : Aead) where
  seal_data-made :
      (key pfx plain : Bytes) (ts counter : ℕ) (r : Outcome Bytes)
      → make_nonce pfx ts counter ≡ r
      → ((nonce : Bytes) → r ≡ ok nonce → SameAt aead other nonce)
      → seal_data other key pfx ts counter plain ≡ seal_data aead key pfx ts counter plain
  unfolding seal_data
  seal_data-made key pfx plain ts counter (ok nonce) made same =
      rw (made, (same nonce refl).same_accepts key, (same nonce refl).same_result key plain)
  seal_data-made key pfx plain ts counter (raised e) made same = rw made
  seal_data-made key pfx plain ts counter pending made same = rw made

  module _ {ℓ} {S : Type ℓ} (conn : Conn S) (now : ℕ → ℕ) (m : Bytes) (c : SecureConn S)
      (same : (nonce : Bytes)
        → make_nonce c.send_pfx (now c.send_counter % 2 ^ 32) c.send_counter ≡ ok nonce
        → SameAt aead other nonce) where
    send-SameAt : send conn other now c.send_counter m c ≡ send conn aead now c.send_counter m c
    unfolding send
    send-SameAt = rw (
        seal_data-made c.send_key c.send_pfx m (now c.send_counter % 2 ^ 32) c.send_counter _ refl
          same)

    -- A write does the same with two ciphers that do the same with the nonce of its message.
    pub write-SameAt : write conn other now m c ≡ write conn aead now m c
    unfolding write
    write-SameAt = ground (arith, send-SameAt)
