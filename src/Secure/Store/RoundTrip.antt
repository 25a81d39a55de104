-- ===== src/Secure/Store/RoundTrip.antt =====
-- `save_identity` and `load_identity` of secure/store.py, one behind the other.
use package.text.Mathlib.TextPositions.{eq_refl}
use uniconn.Prelude.{
  ◌+◌, ◌-◌, ◌≤◌, ◌≡◌, refl, sym, ap, ◌∙◌, String, true, some, ◌∷◌, ◌++◌, append_assoc, arith,
  length, take, drop, length-append, take-append_exact, drop-append_exact, le→ltb_false,
}
use uniconn.Outcome.{ok}
use uniconn.Struct.{Bytes}
use uniconn.Secure.Crypto.{Aead, AeadLaws}
use uniconn.Secure.Identity.{Identity}
use uniconn.Secure.Store.{
  Argon, Files, magic, version, write_bytes, read_bytes, derive_key, seal_identity, save_identity,
  split_keys, open_file, open_identity, load_identity,
}

read-write :
    (path : String) (content : Bytes) (files : Files)
    → read_bytes path (write_bytes path content files) ≡ ok content
unfolding read_bytes write_bytes
read-write path content files = rw (eq_refl path, read_bytes)

abbrev file_head : Bytes → Bytes
file_head body = magic ++ (version ∷ body)

rejoin :
    (identity : Identity)
    → length identity.secret_key ≡ 4896
    → length identity.public_key ≡ 2592
    → ◌≡◌ {A = Identity}
        (record {
          public_key = drop 4896 (identity.secret_key ++ identity.public_key);
          secret_key = take 4896 (identity.secret_key ++ identity.public_key);
        })
        identity
rejoin identity sk pk = λ i. record {
  public_key = drop-append_exact 4896 identity.secret_key identity.public_key (sym sk) i;
  secret_key = take-append_exact 4896 identity.secret_key identity.public_key (sym sk) i;
}

module _ (argon : Argon) (aead : Aead) (password : Bytes) where
  -- Opening a file whose parts are known.
  open_identity-parts :
      (body salt nonce payload plain : Bytes)
      → 56 ≤ length body
      → take 32 body ≡ salt
      → take 24 (drop 32 body) ≡ nonce
      → drop 56 body ≡ payload
      → 16 ≤ length payload
      → aead.accepts (derive_key argon aead password salt) nonce ≡ true
      → aead.decrypt_and_verify
          (derive_key argon aead password salt)
          nonce
          (take (length payload - 16) payload)
          (drop (length payload - 16) payload)
        ≡ some plain
      → length plain ≡ 7488
      → open_identity argon aead (file_head body) password
        ≡ ok (record { public_key = drop 4896 plain; secret_key = take 4896 plain })
  unfolding open_identity open_file split_keys
  open_identity-parts body salt nonce payload plain long e₁ e₂ e₃ tagged fits opens sized = rw (
    le→ltb_false (length (file_head body)) 61 (omega arith),
    e₁,
    e₂,
    e₃,
    le→ltb_false (length payload) 16 tagged,
    fits,
    opens,
    sized,
  )

  -- What `seal_identity` wrote, `open_identity` reads.
  pub open_identity-seal_identity :
      (salt nonce : Bytes) (identity : Identity)
      → AeadLaws aead
      → length salt ≡ 32
      → length nonce ≡ 24
      → length (derive_key argon aead password salt) ≡ 32
      → length identity.secret_key ≡ 4896
      → length identity.public_key ≡ 2592
      → (content : Bytes) × (seal_identity argon aead salt nonce identity password ≡ ok content)
        × (open_identity argon aead content password ≡ ok identity)
  open_identity-seal_identity salt nonce identity laws salted nonced keyed sk pk =
      let key : Bytes = derive_key argon aead password salt in
      let plain : Bytes = identity.secret_key ++ identity.public_key in
      let ciphertext : Bytes = (aead.encrypt_and_digest key nonce plain).0 in
      let tag : Bytes = (aead.encrypt_and_digest key nonce plain).1 in
      let payload : Bytes = ciphertext ++ tag in
      let body : Bytes = (salt ++ nonce) ++ payload in
      let tail : body ≡ salt ++ (nonce ++ payload) = append_assoc salt nonce payload in
      let fits = laws.accepts_sizes key nonce keyed nonced in
      let tag_is : length payload ≡ length ciphertext + 16 =
        length-append ciphertext tag
        ∙ ap (λ n. length ciphertext + n) (laws.tag_size key nonce plain) in
      let cut : length payload - 16 ≡ length ciphertext = omega arith in
      let size : length plain ≡ 7488 =
        omega (arith, length-append identity.secret_key identity.public_key) in
      (
        file_head body,
        unfold seal_identity in rw fits,
        open_identity-parts body salt nonce payload plain
              (omega (arith, length-append (salt ++ nonce) payload, length-append salt nonce))
              (ap (take 32) tail ∙ take-append_exact 32 salt (nonce ++ payload) (sym salted))
              (ap (λ t. take 24 (drop 32 t)) tail
                ∙ (ap (take 24) (drop-append_exact 32 salt (nonce ++ payload) (sym salted))
                    ∙ take-append_exact 24 nonce payload (sym nonced)))
              (drop-append_exact 56 (salt ++ nonce) payload
                (omega (arith, length-append salt nonce)))
              (omega arith) fits
              (rw
                (
                  cut,
                  take-append_exact (length ciphertext) ciphertext tag refl,
                  drop-append_exact (length ciphertext) ciphertext tag refl,
                )
                (laws.opens key nonce plain))
              size
            ∙ ap ok (rejoin identity sk pk),
      )

  -- For keys of the sizes of ML-DSA-87, a salt of 32 and a nonce of 24 bytes, and a key of 32 bytes
  -- from Argon2id, `save_identity` succeeds; `load_identity` of the same path, under the same
  -- password, then returns the identity.
  pub load_identity-save_identity :
      (salt nonce : Bytes) (path : String) (identity : Identity) (files : Files)
      → AeadLaws aead
      → length salt ≡ 32
      → length nonce ≡ 24
      → length (derive_key argon aead password salt) ≡ 32
      → length identity.secret_key ≡ 4896
      → length identity.public_key ≡ 2592
      → (files' : Files) × (save_identity argon aead salt nonce path identity password files
          ≡ ok files')
        × (load_identity argon aead path password files' ≡ ok identity)
  unfolding save_identity load_identity
  load_identity-save_identity salt nonce path identity files laws salted nonced keyed sk pk =
      let (content, sealed, opened) =
        open_identity-seal_identity salt nonce identity laws salted nonced keyed sk pk in
      (write_bytes path content files, rw sealed, rw (read-write path content files) opened)
