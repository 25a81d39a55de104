-- ===== src/Conn/Buffer.antt =====
-- The step that the adapters share: of the bytes at hand, as many as fit go to the front of the
-- caller's buffer, and the others are kept for the next read. In the source it stands in
-- `SecureConn._read`, `SecureConn._handle_data`, `WsConn.read`, `KcpConn.read` and
-- `WebTransportConn.read`.
use uniconn.Prelude.{
  ℕ, ◌≡◌, [], ◌++◌, arith, min, length, take, drop, length-take, take-append-drop, ltb,
  if◌then◌else◌, drop_all,
}
use uniconn.Struct.{Bytes, set_slice}

-- `n = min(len(buf), len(have))`
abbrev pub portion : Bytes → Bytes → ℕ
portion buf have = min (length buf) (length have)

-- `buf[:n] = have[:n]` and the result `n`
abbrev pub put_front : Bytes → Bytes → ℕ × Bytes
put_front buf have =
    (portion buf have, set_slice 0 (portion buf have) (take (portion buf have) have) buf)

-- `have[n:]`
abbrev pub left_over : Bytes → Bytes → Bytes
left_over buf have = drop (portion buf have) have

-- `if n < len(have): kept.extend(have[n:])`
abbrev pub keep_rest : Bytes → Bytes → Bytes → Bytes
keep_rest buf have kept =
    if ltb (portion buf have) (length have) then kept ++ left_over buf have else kept

-- What was delivered of `have`.
abbrev pub delivered : Bytes → Bytes → Bytes
delivered buf have = take (portion buf have) have

module _ (buf have : Bytes) where
  pub length-delivered : length (delivered buf have) ≡ portion buf have
  length-delivered = omega (arith, length-take (portion buf have) have)

  pub put_front-delivered :
      put_front buf have
      ≡ (length (delivered buf have), delivered buf have ++ drop (length (delivered buf have)) buf)
  put_front-delivered = rw length-delivered

  pub delivered-left_over : delivered buf have ++ left_over buf have ≡ have
  delivered-left_over = take-append-drop (portion buf have) have

  -- From an empty store, what is kept is what was not delivered.
  pub keep_rest-nil : keep_rest buf have [] ≡ left_over buf have
  keep_rest-nil = ground (arith, drop_all (portion buf have) have)
