-- ===== src/Secure/Message.antt =====
-- uniconn-py/uniconn/secure/constants.py, and the message bodies of secure/message.py.
pub mod RoundTrip
use uniconn.Prelude.{ℕ, ◌+◌, String, [], ◌∷◌, ◌++◌, ltb, length, not}
use uniconn.Outcome.{
  Outcome, ok, raised, exn, value_error, index_error, struct_error, text, ◌>>=◌, ◌>>◌, reject,
}
use uniconn.Struct.{Bytes, pack, unpack, slice}

abbrev pub msg_hello : ℕ
msg_hello = 0x01

abbrev pub msg_hello_reply : ℕ
msg_hello_reply = 0x02

abbrev pub msg_data : ℕ
msg_data = 0x03

abbrev pub msg_error : ℕ
msg_error = 0xff

abbrev pub nonce_size : ℕ
nonce_size = 24

abbrev pub nonce_prefix_size : ℕ
nonce_prefix_size = 12

abbrev pub timestamp_size : ℕ
timestamp_size = 4

abbrev pub fingerprint_size : ℕ
fingerprint_size = 64

abbrev pub kdf_output_size : ℕ
kdf_output_size = 88

abbrev pub max_message_size : ℕ
max_message_size = 16_777_216

-- The dictionary that `unmarshal_hello` returns.
pub record Hello : Type 0 where
  pub msg_type : ℕ
  pub public_key : Bytes
  pub payload : Bytes
  pub signature : Bytes

-- `body.append(n)` of an empty bytearray.
unfoldable pub append_byte : ℕ → Outcome Bytes
append_byte n = do
  reject (not (ltb n 256)) (exn value_error (text "byte must be in range(0, 256)"))
  ok (n ∷ [])

-- `struct.pack("!H", len(part))` and the part itself.
unfoldable pub field : Bytes → Outcome Bytes
unfolding pack
field part = do size ← pack 2 (length part); ok (size ++ part)

-- `marshal_hello` up to the frame's length prefix: the body.
unfoldable pub hello_body : ℕ → Bytes → Bytes → Bytes → Outcome Bytes
unfolding append_byte field
hello_body msg_type public_key payload signature = do
  head ← append_byte msg_type
  key ← field public_key
  content ← field payload
  sig ← field signature
  ok (head ++ (key ++ (content ++ sig)))

-- `struct.pack("!I", len(body)) + body`
unfoldable pub framed : Bytes → Outcome Bytes
unfolding pack
framed body = do size ← pack 4 (length body); ok (size ++ body)

unfoldable pub marshal_hello : ℕ → Bytes → Bytes → Bytes → Outcome Bytes
unfolding hello_body framed
marshal_hello msg_type public_key payload signature = do
  body ← hello_body msg_type public_key payload signature
  framed body

-- One of the three length-prefixed fields of `unmarshal_hello`, read at `off`: its bytes, cut off
-- where the body ends, and the offset behind it.
unfoldable pub field_at : ℕ → Bytes → Outcome (Bytes × ℕ)
unfolding unpack
field_at off body = do
  size ← unpack 2 (slice off (off + 2) body)
  ok (slice (off + 2) (off + 2 + size) body, off + 2 + size)

unfoldable pub unmarshal_hello : Bytes → Outcome Hello
unfolding field_at
unmarshal_hello [] = raised (exn value_error (text "empty message body"))
unmarshal_hello (msg_type ∷ tail) = do
  (public_key, off) ← field_at 1 (msg_type ∷ tail)
  (payload, off') ← field_at off (msg_type ∷ tail)
  (signature, _) ← field_at off' (msg_type ∷ tail)
  ok (record {
    msg_type = msg_type;
    public_key = public_key;
    payload = payload;
    signature = signature;
  })

-- `marshal_data`: the body of a DATA message.
unfoldable pub marshal_data : ℕ → ℕ → Bytes → Outcome Bytes
unfolding append_byte pack
marshal_data timestamp counter ciphertext = do
  head ← append_byte msg_data
  ts ← pack 4 timestamp
  ctr ← pack 8 counter
  ok (head ++ (ts ++ (ctr ++ ciphertext)))

-- `marshal_error`, on the UTF-8 bytes of the reason.
unfoldable pub marshal_error : Bytes → Outcome Bytes
unfolding append_byte field
marshal_error reason_bytes = do
  head ← append_byte msg_error
  reason ← field reason_bytes
  ok (head ++ reason)
