-- ===== src/Tcp/Ended.antt =====
-- A TCP connection whose peer has ended the stream, as a reader of frames meets it.
use uniconn.Prelude.{
  ℕ, zero, suc, ◌≤◌, ◌≡◌, refl, ◌∙◌, true, false, Option, none, some, [], ◌∷◌, arith, length, drop,
  length-append, length-take, length-drop, ◌==◌, Bool-cases, inl, inr,
}
use uniconn.Outcome.{Outcome, ok, raised, pending, Exn}
use uniconn.Struct.{Bytes}
use uniconn.Asyncio.{StreamReader, reader_read}
use uniconn.Secure.Frame.Ending.{Answered, IsPrompt}
use uniconn.Tcp.{TcpConn, fill_front, answer, read, tcp}

abbrev pub IsAtEnd : TcpConn → Type 0
IsAtEnd c = c.reader.at_eof ≡ true

-- What a reader at the end of its stream answers.
abbrev Short : ℕ → Outcome Bytes → Type 0
Short n (ok bytes) = length bytes ≤ n
Short n (raised e) = Unit
Short n pending = ⊥

suc_ne_zero : (n : ℕ) → (suc n == 0) ≡ false
suc_ne_zero n = ground arith

reader-Short :
    (n : ℕ) (arrived : Bytes) (failure : Option Exn) (r : StreamReader)
    → r.arrived ≡ arrived
    → r.failure ≡ failure
    → r.at_eof ≡ true
    → Short n (reader_read n r).0 × ((reader_read n r).1.at_eof ≡ true)
unfolding reader_read
reader-Short n arrived (some e) r a f at_end = rw f (tt, at_end)
reader-Short zero arrived none r a f at_end = rw f (omega arith, at_end)
reader-Short (suc n) [] none r a f at_end = rw (f, suc_ne_zero n, a, at_end) (omega arith, refl)
reader-Short (suc n) (b ∷ bs) none r a f at_end =
    rw (f, suc_ne_zero n, a) (omega (arith, length-take n bs), at_end)

answer-Answered :
    (buf : Bytes) (r : Outcome Bytes) → Short (length buf) r → Answered (length buf) (answer buf r)
unfolding answer fill_front
answer-Answered buf (ok []) h = (omega arith, refl)
answer-Answered buf (ok (b ∷ bs)) h = (
  h,
  length-append (b ∷ bs) (drop (length (b ∷ bs)) buf)
      ∙ omega (arith, length-drop (length (b ∷ bs)) buf),
)
answer-Answered buf (raised e) h = tt
answer-Answered buf pending h = absurd h

tcp_read-IsAtEnd :
    (s : TcpConn) (buf : Bytes)
    → IsAtEnd s
    → Answered (length buf) (read buf s).0 × IsAtEnd (read buf s).1
unfolding read
tcp_read-IsAtEnd s buf h =
    let (short, stays) =
      reader-Short (length buf) s.reader.arrived s.reader.failure s.reader refl refl h in
    elim (Bool-cases s.closed) [
      | inl shut ↦ rw shut (tt, h)
      | inr running ↦
          rw running (answer-Answered buf (reader_read (length buf) s.reader).0 short, stays)
    ]

-- The reads of a TCP connection whose peer has ended the stream come back.
pub tcp-IsPrompt : IsPrompt tcp IsAtEnd
unfolding tcp
tcp-IsPrompt = record {
  answers = λ s buf h. (tcp_read-IsAtEnd s buf h).0;
  stays = λ s buf h. (tcp_read-IsAtEnd s buf h).1;
}
