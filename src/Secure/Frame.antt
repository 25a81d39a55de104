-- ===== src/Secure/Frame.antt =====
-- The framing of secure/message.py over a connection: four bytes of length, then the body.
pub mod Reading
pub mod Ending
use uniconn.Prelude.{ℕ, zero, suc, ◌+◌, ◌-◌, ltb, ◌==◌, take, replicate, if◌then◌else◌}
use uniconn.Outcome.{
  Outcome, ok, pending, Exn, exn, connection_error, value_error, text, text_number,
}
use uniconn.Action.{Action, pure, raise, lift, reject, ◌>>=◌, ◌>>◌}
use uniconn.Struct.{Bytes, unpack, set_slice}
use uniconn.Conn.{Conn}
use uniconn.Secure.Message.{max_message_size, framed}

module _ {ℓ} {S : Type ℓ} (conn : Conn S) where
  -- The loop `while offset < size` of `read_frame_from_conn`, with the exception that it raises at
  -- end of file. Each round adds at least one to the offset, so a fuel above `size` is enough; out
  -- of fuel the call would still be running.
  unfoldable pub fill : Exn → ℕ → ℕ → ℕ → Bytes → Action S Bytes
  fill eof zero size offset buf s = (pending, s)
  fill eof (suc fuel) size offset buf s =
      if ltb offset size
      then (conn.read (replicate (size - offset) 0) >>= λ (n, remaining).
            if n == 0
            then raise eof
            else fill eof fuel size (offset + n)
                (set_slice offset (offset + n) (take n remaining) buf))
          s
      else (ok buf, s)

  -- `read_frame_from_conn`
  unfoldable pub read_frame_from_conn : Action S Bytes
  read_frame_from_conn = do
    len_buf ←
        fill (exn connection_error (text "unexpected EOF reading frame length")) 5 4 0
          (replicate 4 0)
    size ← lift (unpack 4 len_buf)
    reject (ltb max_message_size size) (exn value_error (text_number "frame too large" size))
    fill (exn connection_error (text "unexpected EOF reading frame body")) (suc size) size 0
        (replicate size 0)

  -- `write_frame_to_conn`; the count that `conn.write` returns is dropped.
  unfoldable pub write_frame_to_conn : Bytes → Action S (Unit {0})
  write_frame_to_conn body = do frame ← lift (framed body); _ ← conn.write frame; pure tt
