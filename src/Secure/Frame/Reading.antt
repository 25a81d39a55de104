-- ===== src/Secure/Frame/Reading.antt =====
-- Reading a frame from any connection that keeps the contract of a stream.
use uniconn.Prelude.{
  ℕ, zero, suc, ◌+◌, ◌-◌, ◌≤◌, ◌<◌, ◌≡◌, refl, sym, ap, ◌∙◌, subst, [], ◌∷◌, ◌++◌, append_assoc,
  arith, length, drop, replicate, length-append, length-replicate, take-append_exact,
  drop-append_exact, drop-drop, append_split, length-drop, lt→ltb, le→ltb_false, ◌==◌, false,
}
use uniconn.Outcome.{ok, Exn, exn, connection_error, text}
use uniconn.Struct.{Bytes, to_be, set_slice}
use uniconn.Struct.RoundTrip.{length-to_be, unpack-to_be}
use uniconn.Conn.{Conn}
use uniconn.Conn.Stream.{Delivers, IsStream}
use uniconn.Secure.Message.{max_message_size}
use uniconn.Secure.Frame.{fill, read_frame_from_conn}

abbrev eof_length : Exn
eof_length = exn connection_error (text "unexpected EOF reading frame length")

abbrev pub eof_body : Exn
eof_body = exn connection_error (text "unexpected EOF reading frame body")

pos→ne_zero : (n : ℕ) → 0 < n → (n == 0) ≡ false
pos→ne_zero n h = ground arith

-- What one round of the loop writes into a buffer whose first bytes are `done`.
set_slice-got :
    (done tail got : Bytes) (offset n : ℕ)
    → offset ≡ length done
    → n ≡ length got
    → set_slice offset (offset + n) got (done ++ tail) ≡ (done ++ got) ++ drop n tail
set_slice-got done tail got offset n e f =
    rw (take-append_exact offset done tail e, ← drop-drop n offset (done ++ tail))
      (rw (drop-append_exact offset done tail e) (sym (append_assoc done got (drop n tail))))

-- What is left for the loop to do: `want` is to be read behind the `offset` bytes of `done`.
pub record Filling (size offset : ℕ) (buf done want : Bytes) : Type 0 where
  tail : Bytes
  laid_out : buf ≡ done ++ tail
  reached : offset ≡ length done
  left : offset + length want ≡ size
  room : length tail ≡ length want

module _ {ℓ κ} {S : Type ℓ} (conn : Conn S) (Holds : S → Bytes → Type κ) where
  -- One round of the loop: what the connection delivers is laid behind `done`.
  fill_round :
      (eof : Exn) (fuel size offset : ℕ) (done tail todo : Bytes) (s : S)
      → offset < size
      → offset ≡ length done
      → (d : Delivers conn Holds s (replicate (size - offset) 0) todo)
      → fill conn eof (suc fuel) size offset (done ++ tail) s
        ≡ fill conn eof fuel size
            (offset + length d.got)
            ((done ++ d.got) ++ drop (length d.got) tail)
            d.after
  unfolding fill
  fill_round eof fuel size offset done tail todo s more at_done d = rw (
    lt→ltb offset size more,
    d.runs,
    pos→ne_zero _ d.some_bytes,
    take-append_exact (length d.got) d.got (drop (length d.got) (replicate (size - offset) 0)) refl,
    set_slice-got done tail d.got offset (length d.got) at_done refl,
  )

module _ {ℓ κ} {S : Type ℓ} (conn : Conn S) (Holds : S → Bytes → Type κ)
    (stream : IsStream conn Holds) where
  -- The loop reads exactly `want`, in whatever pieces the connection delivers it.
  pub fill-IsStream :
      (eof : Exn) (fuel size offset : ℕ) (done tail want more : Bytes) (s : S)
      → length want < fuel
      → offset ≡ length done
      → offset + length want ≡ size
      → length tail ≡ length want
      → Holds s (want ++ more)
      → (s' : S) × (fill conn eof fuel size offset (done ++ tail) s ≡ (ok (done ++ want), s'))
        × Holds s' more
  fill-IsStream eof zero size offset done tail want more s enough at_done left room h =
      absurd (omega arith)
  fill-IsStream eof (suc fuel) size offset done [] [] more s enough at_done left room h =
      unfold fill in (s, rw (le→ltb_false offset size (omega arith)), h)
  fill-IsStream eof (suc fuel) size offset done (x ∷ tail) [] more s enough at_done left room h =
      absurd (omega arith)
  fill-IsStream eof (suc fuel) size offset done tail (w ∷ want) more s enough at_done left room h =
      let buf : Bytes = replicate (size - offset) 0 in
      let buf_length : length buf ≡ size - offset = length-replicate (size - offset) 0 in
      let d = stream.reads s buf ((w ∷ want) ++ more) (omega arith) (omega arith) h in
      let (mid, front, back) =
        append_split d.got d.rest (w ∷ want) more d.splits (omega (arith, d.fits)) in
      let front_length : suc (length want) ≡ length d.got + length mid =
        ap length front ∙ length-append d.got mid in
      let (s', runs, holds) =
        fill-IsStream eof fuel size (offset + length d.got) (done ++ d.got)
          (drop (length d.got) tail) mid more d.after (omega (arith, d.some_bytes))
          (omega (arith, length-append done d.got)) (omega arith)
          (omega (arith, length-drop (length d.got) tail)) (subst (Holds d.after) back d.holds) in
      (
        s',
        fill_round conn Holds eof fuel size offset done tail _ s (omega arith) at_done d
            ∙ (runs
                ∙ ap (λ t. (ok t, s'))
                    (append_assoc done d.got mid ∙ ap (λ t. done ++ t) (sym front))),
        holds,
      )

  -- `read_frame_from_conn` reads one frame of at most `max_message_size` bytes and leaves what
  -- follows it unread.
  pub read_frame-IsStream :
      (body more : Bytes) (s : S)
      → length body ≤ max_message_size
      → Holds s ((to_be 4 (length body) ++ body) ++ more)
      → (s' : S) × (read_frame_from_conn conn s ≡ (ok body, s')) × Holds s' more
  unfolding read_frame_from_conn
  read_frame-IsStream body more s small h =
      let n : ℕ = length body in
      let header : Bytes = to_be 4 n in
      let (s₁, run₁, h₁) =
        fill-IsStream eof_length 5 4 0 [] (replicate 4 0) header (body ++ more) s
          (omega (arith, length-to_be 4 n)) refl (omega (arith, length-to_be 4 n))
          (sym (length-to_be 4 n)) (subst (Holds s) (append_assoc header body more) h) in
      let (s₂, run₂, h₂) =
        fill-IsStream eof_body (suc n) n 0 [] (replicate n 0) body more s₁ (omega arith) refl
          (omega arith) (length-replicate n 0) h₁ in
      (
        s₂,
        rw (run₁, unpack-to_be 4 n (omega arith), le→ltb_false max_message_size n small) run₂,
        h₂,
      )
