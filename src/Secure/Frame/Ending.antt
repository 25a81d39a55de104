-- ===== src/Secure/Frame/Ending.antt =====
-- Reading a frame from a connection whose reads always answer: the loop ends, and how.
use uniconn.Prelude.{
  ℕ, zero, suc, ◌+◌, ◌-◌, ◌≤◌, ◌<◌, ◌≡◌, refl, ◌∙◌, ◌++◌, ◌⊎◌, arith, length, take, drop, replicate,
  length-append, length-replicate, length-take, length-drop, ltb, ◌==◌, Bool-cases, inl, inr,
}
use uniconn.Outcome.{Outcome, ok, raised, pending, Exn}
use uniconn.Action.{Action, continue}
use uniconn.Struct.{Bytes, set_slice, unpack, from_be}
use uniconn.Conn.{Conn}
use uniconn.Secure.Message.{max_message_size}
use uniconn.Secure.Frame.Reading.{eof_body}
use uniconn.Secure.Frame.{fill, read_frame_from_conn}

-- A read into `room` bytes came back: with no more than fit, in a buffer of the same size, or with an
-- exception.
abbrev pub Answered : ℕ → Outcome (ℕ × Bytes) → Type 0
Answered room (ok (n, buf)) = (n ≤ room) × (length buf ≡ room)
Answered room (raised e) = Unit
Answered room pending = ⊥

-- The connection's reads come back, at every state at which it is ready, and it stays ready.
pub record IsPrompt {ℓ κ} {S : Type ℓ} (conn : Conn S) (Ready : S → Type κ) : Type (ℓ ⊔ κ) where
  pub answers : (s : S) (buf : Bytes) → Ready s → Answered (length buf) (conn.read buf s).0
  pub stays : (s : S) (buf : Bytes) → Ready s → Ready (conn.read buf s).1

-- A call came back, with bytes of which `Good` holds or with an exception.
abbrev pub Ended : (Bytes → Type 0) → Outcome Bytes → Type 0
Ended Good (ok bytes) = Good bytes
Ended Good (raised e) = Unit
Ended Good pending = ⊥

length-set_slice :
    (offset n : ℕ) (got buf : Bytes)
    → n ≤ length got
    → offset + n ≤ length buf
    → length (set_slice offset (offset + n) (take n got) buf) ≡ length buf
length-set_slice offset n got buf h k =
    length-append (take offset buf) (take n got ++ drop (offset + n) buf)
    ∙ omega (
      arith,
      length-append (take n got) (drop (offset + n) buf),
      length-take offset buf,
      length-take n got,
      length-drop (offset + n) buf,
    )

-- A call came back, with bytes of which `Good` holds or with an exception, and left its state ready.
abbrev pub Settled {ℓ κ} :
    {S : Type ℓ} → (S → Type κ) → (Bytes → Type 0) → Outcome Bytes × S → Type κ
Settled Ready Good (r, s) = Ended Good r × Ready s

Answered-cases :
    (room : ℕ) (r : Outcome (ℕ × Bytes))
    → Answered room r
    → ((got : ℕ × Bytes) × (r ≡ ok got) × (got.0 ≤ room) × (length got.1 ≡ room))
      ⊎ ((e : Exn) × (r ≡ raised e))
Answered-cases room (ok got) h = inl (got, refl, h.0, h.1)
Answered-cases room (raised e) h = inr (e, refl)
Answered-cases room pending h = absurd h

module _ {ℓ κ} {S : Type ℓ} (conn : Conn S) (Ready : S → Type κ)
    (prompt : IsPrompt conn Ready) where
  -- The loop ends with the buffer full, or by an exception, if it has fuel for one round more than
  -- the bytes that are missing.
  fill-Settled :
      (eof : Exn) (fuel size offset : ℕ) (buf : Bytes) (s : S)
      → size < fuel + offset
      → offset ≤ size
      → length buf ≡ size
      → Ready s
      → Settled Ready (λ bytes. length bytes ≡ size) (fill conn eof fuel size offset buf s)
  unfolding fill
  fill-Settled eof zero size offset buf s enough within full h = absurd (omega arith)
  fill-Settled eof (suc fuel) size offset buf s enough within full h =
      let room : Bytes = replicate (size - offset) 0 in
      let room_length : length room ≡ size - offset = length-replicate (size - offset) 0 in
      let h' = prompt.stays s room h in
      elim (Bool-cases (ltb offset size)) [
        | inr done ↦ rw done (full, h)
        | inl more ↦ elim (Answered-cases (length room) _ (prompt.answers s room h)) [
          | inr (e, raises) ↦ rw (more, raises) (tt, h')
          | inl ((n, remaining), returns, few, same) ↦ elim (Bool-cases (n == 0)) [
            | inl at_end ↦ rw (more, returns, at_end) (tt, h')
            | inr some_more ↦
                rw (more, returns, some_more)
                  (fill-Settled eof fuel size (offset + n) _ _ (ground arith) (ground arith)
                    (length-set_slice offset n remaining buf (omega arith) (ground arith) ∙ full)
                    h')
          ]
        ]
      ]

Settled-weaker {ℓ κ} :
    {S : Type ℓ} (Ready : S → Type κ) (Good Good' : Bytes → Type 0)
    → ((bytes : Bytes) → Good bytes → Good' bytes)
    → (x : Outcome Bytes × S) → Settled Ready Good x
    → Settled Ready Good' x
Settled-weaker Ready Good Good' f (ok bytes, s) h = (f bytes h.0, h.1)
Settled-weaker Ready Good Good' f (raised e, s) h = h
Settled-weaker Ready Good Good' f (pending, s) h = h

continue-Settled {ℓ κ} :
    {S : Type ℓ} (Ready : S → Type κ) (Good Good' : Bytes → Type 0) (k : Bytes → Action S Bytes)
    (r : Outcome Bytes) (s : S)
    → Settled Ready Good (r, s)
    → ((bytes : Bytes) → Good bytes → Ready s → Settled Ready Good' (k bytes s))
    → Settled Ready Good' (continue r k s)
continue-Settled Ready Good Good' k (ok bytes) s h next = next bytes h.0 h.1
continue-Settled Ready Good Good' k (raised e) s h next = h
continue-Settled Ready Good Good' k pending s h next = h

module _ {ℓ κ} {S : Type ℓ} (conn : Conn S) (Ready : S → Type κ)
    (prompt : IsPrompt conn Ready) where
  fill_body-Settled :
      (size : ℕ) (s : S)
      → Ready s
      → Settled Ready
          (λ body. length body ≡ size)
          (fill conn eof_body (suc size) size 0 (replicate size 0) s)
  fill_body-Settled size s h =
      fill-Settled conn Ready prompt _ (suc size) size 0 (replicate size 0) s (omega arith)
        (omega arith) (length-replicate size 0) h

  -- Over a connection whose reads always come back, `read_frame_from_conn` comes back: it returns a
  -- body of at most `max_message_size` bytes, or raises an exception.
  pub read_frame-Settled :
      (s : S)
      → Ready s
      → Settled Ready (λ body. length body ≤ max_message_size) (read_frame_from_conn conn s)
  unfolding read_frame_from_conn unpack
  read_frame-Settled s h =
      continue-Settled Ready (λ bytes. length bytes ≡ 4) (λ body. length body ≤ max_message_size) _
        _ _
        (fill-Settled conn Ready prompt _ 5 4 0 (replicate 4 0) s (omega arith) (omega arith) refl
          h)
        (λ bytes four h'. elim (Bool-cases (ltb max_message_size (from_be bytes))) [
          | inl big ↦ rw (four, big) (tt, h')
          | inr small ↦
              rw (four, small)
                (Settled-weaker Ready (λ body. length body ≡ from_be bytes)
                  (λ body. length body ≤ max_message_size) (λ body e. ground arith) _
                  (fill_body-Settled (from_be bytes) _ h'))
        ])
