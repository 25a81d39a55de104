-- ===== src/Tests/Store.antt =====
-- An identity with keys of the real sizes, in a file.
use uniconn.Prelude.{ℕ, ◌≡◌, refl, ◌++◌, none, [], ◌∷◌, length, replicate, length-replicate}
use uniconn.Outcome.{ok}
use uniconn.Struct.{Bytes}
use uniconn.Secure.Identity.{Identity}
use uniconn.Secure.Store.{Argon, Files, derive_key, save_identity, load_identity}
use uniconn.Secure.Store.RoundTrip.{load_identity-save_identity}
use uniconn.Secure.Store.Sizes.{load_identity-IsSized}
use uniconn.Tests.Toys.{plain_aead, plain_aead-AeadLaws}

-- A key of 32 bytes that starts with those of the password.
abbrev toy_argon : Argon
toy_argon = λ password salt time memory parallelism size. replicate size (length (password ++ salt))

abbrev no_files : Files
no_files = λ path. none

abbrev password : Bytes
password = 112 ∷ 119 ∷ []

abbrev salt : Bytes
salt = replicate 32 6

abbrev nonce : Bytes
nonce = replicate 24 7

secret_key : Bytes
secret_key = replicate 4896 1

public_key : Bytes
public_key = replicate 2592 2

abbrev owner : Identity
owner = record { public_key = public_key; secret_key = secret_key }

derived-sized : length (derive_key toy_argon plain_aead password salt) ≡ 32
unfolding derive_key
derived-sized = refl

secret_key-sized : length secret_key ≡ 4896
unfolding secret_key
secret_key-sized = length-replicate {A = ℕ} 4896 1

public_key-sized : length public_key ≡ 2592
unfolding public_key
public_key-sized = length-replicate {A = ℕ} 2592 2

stored :
    (files' : Files) × (save_identity toy_argon plain_aead salt nonce "id.bin" owner password
        no_files
      ≡ ok files')
    × (load_identity toy_argon plain_aead "id.bin" password files' ≡ ok owner)
stored =
    load_identity-save_identity toy_argon plain_aead password salt nonce "id.bin" owner no_files
      plain_aead-AeadLaws refl refl derived-sized secret_key-sized public_key-sized

load_identity-save_identity_example :
    (files' : Files) × (save_identity toy_argon plain_aead salt nonce "id.bin" owner password
        no_files
      ≡ ok files')
    × (load_identity toy_argon plain_aead "id.bin" password files' ≡ ok owner)
load_identity-save_identity_example =
    load_identity-save_identity toy_argon plain_aead password salt nonce "id.bin" owner no_files
      plain_aead-AeadLaws refl refl derived-sized secret_key-sized public_key-sized

load_identity-IsSized_example : (length owner.secret_key ≡ 4896) × (length owner.public_key ≡ 2592)
load_identity-IsSized_example =
    load_identity-IsSized toy_argon plain_aead "id.bin" password stored.0 owner stored.2
