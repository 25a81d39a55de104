-- ===== src/Tools/Echo/Served.antt =====
-- What an echo server of uniconn-tests/tools_py writes.
use uniconn.Prelude.{
  ℕ, zero, suc, ◌<◌, ◌≡◌, refl, sym, ap, ◌∙◌, subst, false, [], ◌∷◌, ◌++◌, ◌==◌, take, drop,
  replicate, length, arith, append_assoc, append-nil, take-append_exact, length-append,
  length-replicate,
}
use uniconn.Outcome.{ok}
use uniconn.Struct.{Bytes}
use uniconn.Conn.{Conn}
use uniconn.Conn.Stream.{IsDuplex}
use uniconn.Tools.Echo.{echo_loop, close_after, echo_handler}

-- At the end of what is to come, a read returns 0.
abbrev pub ReadsEnd {ℓ κ} : {S : Type ℓ} → Conn S → (S → Bytes → Bytes → Type κ) → Type (ℓ ⊔ κ)
ReadsEnd {S = S} conn Live =
    (s : S) (out buf : Bytes)
    → Live s out []
    → 0 < length buf
    → (s' : S) × (buf' : Bytes) × (conn.read buf s ≡ (ok (0, buf'), s')) × Live s' out []

nonzero : (n : ℕ) → 0 < n → (n == 0) ≡ false
nonzero n h = ground (arith, h)

module _ {ℓ κ} {S : Type ℓ} (conn : Conn S) (Live : S → Bytes → Bytes → Type κ)
    (duplex : IsDuplex conn Live) (at_end : ReadsEnd conn Live) where
  -- One round, at a read that returned.
  round_reads :
      (rounds n : ℕ) (buf buf' : Bytes) (s s' s'' : S)
      → conn.read buf s ≡ (ok (n, buf'), s')
      → (n == 0) ≡ false
      → conn.write (take n buf') s' ≡ (ok n, s'')
      → echo_loop conn (suc rounds) buf s ≡ echo_loop conn rounds buf' s''
  unfolding echo_loop
  round_reads rounds n buf buf' s s' s'' reads some_bytes writes =
      rw (reads, some_bytes, writes) refl

  round_ends :
      (rounds : ℕ) (buf buf' : Bytes) (s s' : S)
      → conn.read buf s ≡ (ok (0, buf'), s')
      → echo_loop conn (suc rounds) buf s ≡ (ok tt, s')
  unfolding echo_loop
  round_ends rounds buf buf' s s' reads = rw reads refl

  loop-echoes :
      (rounds : ℕ) (s : S) (buf out todo : Bytes)
      → length todo < rounds
      → 0 < length buf
      → Live s out todo
      → (s' : S) × (echo_loop conn rounds buf s ≡ (ok tt, s')) × Live s' (out ++ todo) []
  loop-echoes zero s buf out todo enough room h = absurd (omega (arith, enough))
  loop-echoes (suc rounds) s buf out [] enough room h =
      let (s', buf', reads, h') = at_end s out buf h room in
      (
        s',
        round_ends rounds buf buf' s s' reads,
        subst (λ t. Live s' t []) (sym (append-nil out)) h',
      )
  loop-echoes (suc rounds) s buf out (b ∷ bs) enough room h =
      let d = (duplex.stream out).reads s buf (b ∷ bs) room (omega arith) h in
      let w = (duplex.sink d.rest).writes d.after d.got out d.holds in
      let buf' : Bytes = d.got ++ drop (length d.got) buf in
      let shorter : length d.rest < rounds =
        omega (arith, enough, d.some_bytes, ap length d.splits, length-append d.got d.rest) in
      let (s', runs, h') =
        loop-echoes rounds w.after buf' (out ++ d.got) d.rest shorter
          (omega (arith, d.some_bytes, length-append d.got (drop (length d.got) buf))) w.sent in
      (
        s',
        round_reads rounds (length d.got) buf buf' s d.after w.after d.runs
              (nonzero (length d.got) d.some_bytes)
              (ap (λ m. conn.write m d.after) (take-append_exact (length d.got) d.got _ refl)
                ∙ w.runs)
            ∙ runs,
        subst (λ t. Live s' t [])
            (append_assoc out d.got d.rest ∙ ap (λ t. out ++ t) (sym d.splits)) h',
      )

-- Over a connection that can be read and written, with `todo` to come before its end, `echo_handler`
-- with a buffer that is not empty and one round more than there are bytes stops reading: then
-- exactly the bytes `todo` were written behind what was written before, in order, and it returns as
-- the `close` of the connection does.
pub echo_handler-echoes {ℓ κ} :
    {S : Type ℓ} (conn : Conn S) (Live : S → Bytes → Bytes → Type κ) (size : ℕ) (s : S)
    (out todo : Bytes)
    → IsDuplex conn Live
    → ReadsEnd conn Live
    → 0 < size
    → Live s out todo
    → (s' : S) × Live s' (out ++ todo) []
      × (echo_handler conn size (suc (length todo)) s ≡ conn.close s')
unfolding echo_handler close_after
echo_handler-echoes conn Live size s out todo duplex at_end room h =
    let (s', runs, h') =
      loop-echoes conn Live duplex at_end (suc (length todo)) s (replicate size 0) out todo
        (omega arith) (omega (arith, room, length-replicate {A = ℕ} size 0)) h in
    (s', h', rw runs refl)
