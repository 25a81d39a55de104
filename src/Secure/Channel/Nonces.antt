-- ===== src/Secure/Channel/Nonces.antt =====
-- The counter in a nonce of secure/conn.py.
use uniconn.Prelude.{
  ℕ, ◌≡◌, ◌<◌, ◌^◌, sym, ap, ◌∙◌, ◌++◌, arith, length, drop, drop-append_exact, drop-drop,
}
use uniconn.Outcome.{ok}
use uniconn.Struct.{Bytes, to_be, from_be, pack_into}
use uniconn.Struct.RoundTrip.{from_be-to_be, length-to_be}
use uniconn.Secure.Data.{make_nonce}
use uniconn.Secure.Data.RoundTrip.{nonce_bytes, make_nonce-ok}

nonce-fits :
    (pfx nonce : Bytes) (ts n : ℕ) → make_nonce pfx ts n ≡ ok nonce → (ts < 2 ^ 32) × (n < 2 ^ 64)
unfolding make_nonce pack_into
nonce-fits pfx nonce ts n h = ground arith

nonce-drop : (pfx : Bytes) (ts n : ℕ) → length pfx ≡ 12 → drop 16 (nonce_bytes pfx ts n) ≡ to_be 8 n
nonce-drop pfx ts n sized =
    sym (drop-drop 4 12 (nonce_bytes pfx ts n))
    ∙ (ap (drop 4) (drop-append_exact 12 pfx (to_be 4 ts ++ to_be 8 n) (sym sized))
        ∙ drop-append_exact 4 (to_be 4 ts) (to_be 8 n) (sym (length-to_be 4 ts)))

nonce-counter_bytes :
    (pfx nonce : Bytes) (ts n : ℕ)
    → length pfx ≡ 12
    → make_nonce pfx ts n ≡ ok nonce
    → from_be (drop 16 nonce) ≡ n
nonce-counter_bytes pfx nonce ts n sized made =
    let (ts_fits, n_fits) = nonce-fits pfx nonce ts n made in
    let e : nonce_bytes pfx ts n ≡ nonce = cc (make_nonce-ok pfx ts n sized ts_fits n_fits, made) in
    ap (λ t. from_be (drop 16 t)) (sym e)
    ∙ (ap from_be (nonce-drop pfx ts n sized) ∙ from_be-to_be 8 n n_fits)

-- Equal nonces have equal counters.
pub nonce_counter :
    (pfx pfx' : Bytes) (ts ts' n n' : ℕ) (nonce nonce' : Bytes)
    → length pfx ≡ 12
    → length pfx' ≡ 12
    → make_nonce pfx ts n ≡ ok nonce
    → make_nonce pfx' ts' n' ≡ ok nonce'
    → nonce ≡ nonce'
    → n ≡ n'
nonce_counter pfx pfx' ts ts' n n' nonce nonce' sized sized' made made' same =
    sym (nonce-counter_bytes pfx nonce ts n sized made)
    ∙ (ap (λ t. from_be (drop 16 t)) same ∙ nonce-counter_bytes pfx' nonce' ts' n' sized' made')
