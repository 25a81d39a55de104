-- ===== src/Secure/Crypto.antt =====
-- The packages that secure/ calls and that are not in the repository, as parameters: pycryptodome's
-- ChaCha20_Poly1305 in its XChaCha20 form, ML-DSA-87 of dilithium-py, BLAKE3, ML-KEM-1024 of
-- pqcrypto, and Argon2id. Each record of laws states documented behaviour of the package.
use uniconn.Prelude.{ℕ, ◌≡◌, Bool, true, Option, some, length}
use uniconn.Struct.{Bytes}

-- `ChaCha20_Poly1305`. `accepts key nonce` says that `new` takes a key and nonce of these lengths,
-- and `none` that `decrypt_and_verify` raises ValueError.
pub record Aead : Type 0 where
  pub accepts : Bytes → Bytes → Bool
  pub encrypt_and_digest : Bytes → Bytes → Bytes → Bytes × Bytes
  pub decrypt_and_verify : Bytes → Bytes → Bytes → Bytes → Option Bytes

pub record AeadLaws (a : Aead) : Type 0 where
  pub accepts_sizes :
      (key nonce : Bytes) → length key ≡ 32 → length nonce ≡ 24 → a.accepts key nonce ≡ true
  pub ciphertext_size :
      (key nonce plain : Bytes) → length (a.encrypt_and_digest key nonce plain).0 ≡ length plain
  pub tag_size : (key nonce plain : Bytes) → length (a.encrypt_and_digest key nonce plain).1 ≡ 16
  pub opens :
      (key nonce plain : Bytes)
      → let (ciphertext, tag) = a.encrypt_and_digest key nonce plain in
        a.decrypt_and_verify key nonce ciphertext tag ≡ some plain

-- The packages behind identities and the handshake. `none` is an exception of the package, and a
-- random result is a function of the `ℕ` that chose it.
pub record Suite : Type 0 where
  -- `blake3(data).digest(length)`
  pub blake3 : Bytes → ℕ → Bytes
  -- whether `dilithium_py` and `pqcrypto` can be imported
  pub has_mldsa : Bool
  pub has_mlkem : Bool
  -- `ML_DSA_87.keygen()`, as (public key, secret key), `sign(sk, data)` and `verify(pk, data, sig)`
  pub mldsa_keygen : ℕ → Bytes × Bytes
  pub mldsa_sign : Bytes → Bytes → Bytes
  pub mldsa_verify : Bytes → Bytes → Bytes → Option Bool
  -- `generate_keypair()`, as (public key, secret key), `encrypt(pk)` and `decrypt(sk, ciphertext)`
  pub mlkem_keypair : ℕ → Bytes × Bytes
  pub mlkem_encrypt : ℕ → Bytes → Option (Bytes × Bytes)
  pub mlkem_decrypt : Bytes → Bytes → Option Bytes

pub record SuiteLaws (p : Suite) : Type 0 where
  pub digest_size : (bytes : Bytes) (n : ℕ) → length (p.blake3 bytes n) ≡ n
  pub decapsulates :
      (seed seed' : ℕ) (ciphertext secret : Bytes)
      → p.mlkem_encrypt seed' (p.mlkem_keypair seed).0 ≡ some (ciphertext, secret)
      → p.mlkem_decrypt (p.mlkem_keypair seed).1 ciphertext ≡ some secret
