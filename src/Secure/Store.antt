-- ===== src/Secure/Store.antt =====
-- uniconn-py/uniconn/secure/store.py: identities in files, encrypted under a password.
pub mod RoundTrip
pub mod Sizes
use package.text.Mathlib.Text.{◌==◌ as str_eq}
use uniconn.Prelude.{
  ℕ, ◌+◌, ◌-◌, ◌*◌, String, Bool, true, false, not, Option, none, some, List, [], ◌∷◌, ◌++◌, ltb,
  ◌==◌, length, take, drop, bytes_eq, if◌then◌else◌,
}
use uniconn.Outcome.{
  Outcome, ok, raised, Exn, exn, value_error, file_not_found_error, index_error, text, text_number,
  text_bytes, ◌>>=◌, ◌>>◌, reject,
}
use uniconn.Struct.{Bytes, slice}
use uniconn.Secure.Crypto.{Aead}
use uniconn.Secure.Data.{plaintext_or_error}
use uniconn.Secure.Identity.{Identity}

-- b"UCID"
abbrev pub magic : Bytes
magic = b'U' ∷ b'C' ∷ b'I' ∷ b'D' ∷ []

abbrev pub version : ℕ
version = 0x01

abbrev pub salt_size : ℕ
salt_size = 32

abbrev pub nonce_size : ℕ
nonce_size = 24

abbrev pub tag_size : ℕ
tag_size = 16

abbrev pub header_size : ℕ
header_size = 4 + 1 + salt_size + nonce_size

abbrev pub argon_time : ℕ
argon_time = 3

abbrev pub argon_memory : ℕ
argon_memory = 64 * 1024

abbrev pub argon_parallelism : ℕ
argon_parallelism = 4

abbrev pub argon_key_len : ℕ
argon_key_len = 32

abbrev pub mldsa87_sk_size : ℕ
mldsa87_sk_size = 4896

abbrev pub mldsa87_pk_size : ℕ
mldsa87_pk_size = 2592

-- `hash_secret_raw` of argon2, for Argon2id: secret, salt, time, memory, parallelism and length.
abbrev pub Argon : Type 0
Argon = Bytes → Bytes → ℕ → ℕ → ℕ → ℕ → Bytes

-- The files that there are, by path.
abbrev pub Files : Type 0
Files = String → Option Bytes

-- `Path(path).write_bytes(content)`
unfoldable pub write_bytes : String → Bytes → Files → Files
write_bytes path content files other = if str_eq path other then some content else files other

-- `Path(path).read_bytes()`
unfoldable pub read_bytes : String → Files → Outcome Bytes
read_bytes path files = elim (files path) [
  | none ↦ raised (exn file_not_found_error (text path))
  | some content ↦ ok content
]

module _ (argon : Argon) (aead : Aead) where
  unfoldable pub derive_key : Bytes → Bytes → Bytes
  derive_key password salt =
      argon password salt argon_time argon_memory argon_parallelism argon_key_len

  -- The bytes that `save_identity` writes; `salt` and `nonce` come from `os.urandom`.
  unfoldable pub seal_identity : Bytes → Bytes → Identity → Bytes → Outcome Bytes
  unfolding derive_key
  seal_identity salt nonce identity password = do
    let plaintext = identity.secret_key ++ identity.public_key
    let key = derive_key password salt
    reject (not (aead.accepts key nonce)) (exn value_error (text "bad key or nonce length"))
    let (ciphertext, tag) = aead.encrypt_and_digest key nonce plaintext
    let header = magic ++ (version ∷ (salt ++ nonce))
    ok (header ++ (ciphertext ++ tag))

  -- `save_identity`: the files after it, or the exception.
  unfoldable pub save_identity : Bytes → Bytes → String → Identity → Bytes → Files → Outcome Files
  save_identity salt nonce path identity password files = do
    content ← seal_identity salt nonce identity password
    ok (write_bytes path content files)

  -- `cipher.decrypt_and_verify` within its `try`.
  abbrev decrypted : Option Bytes → Outcome Bytes
  decrypted none =
      raised (exn value_error (text "decrypt failed: wrong password or corrupted file"))
  decrypted (some plaintext) = ok plaintext

  -- The fifth byte, `data[4]`.
  abbrev fifth : Bytes → Outcome ℕ
  fifth (_ ∷ _ ∷ _ ∷ _ ∷ b ∷ _) = ok b
  fifth _ = raised (exn index_error (text "index out of range"))

  -- The end of `load_identity`: the keys in the plaintext.
  unfoldable pub split_keys : Bytes → Outcome Identity
  split_keys plaintext = do
    reject (not (length plaintext == mldsa87_sk_size + mldsa87_pk_size))
        (exn value_error (text_number "unexpected plaintext size" (length plaintext)))
    ok (record {
      public_key = drop mldsa87_sk_size plaintext;
      secret_key = take mldsa87_sk_size plaintext;
    })

  -- The checks and the decryption of `load_identity`, on the content of the file.
  unfoldable pub open_file : Bytes → Bytes → Outcome Bytes
  unfolding derive_key
  open_file content password = do
    reject (ltb (length content) header_size)
        (exn value_error (text_number "file too short" (length content)))
    reject (not (bytes_eq (slice 0 4 content) magic))
        (exn value_error (text_bytes "invalid magic" (slice 0 4 content)))
    found ← fifth content
    reject (not (found == version)) (exn value_error (text_number "unsupported version" found))
    let salt = slice 5 (5 + salt_size) content
    let nonce = slice (5 + salt_size) header_size content
    let payload = drop header_size content
    reject (ltb (length payload) tag_size) (exn value_error (text "file too short: no tag"))
    let cut = length payload - tag_size
    let key = derive_key password salt
    reject (not (aead.accepts key nonce)) (exn value_error (text "bad key or nonce length"))
    decrypted (aead.decrypt_and_verify key nonce (take cut payload) (drop cut payload))

  -- `load_identity`, on the content of the file.
  unfoldable pub open_identity : Bytes → Bytes → Outcome Identity
  open_identity content password = do plaintext ← open_file content password; split_keys plaintext

  unfoldable pub load_identity : String → Bytes → Files → Outcome Identity
  load_identity path password files = do
    content ← read_bytes path files
    open_identity content password
