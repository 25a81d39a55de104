-- ===== src/Secure/Channel/Wire.antt =====
-- The frames of a sequence of DATA messages, as they stand on the wire.
use uniconn.Prelude.{ℕ, ◌+◌, ◌≤◌, ◌<◌, List, [], ◌∷◌, ◌++◌, length}
use uniconn.Struct.{Bytes, to_be}
use uniconn.Secure.Message.{max_message_size}
use uniconn.Secure.Crypto.{Aead}
use uniconn.Secure.Data.RoundTrip.{ts_limit, counter_limit, sealed}

-- A message: the time stamp it was sent with, and its plaintext.
abbrev pub Chunk : Type 0
Chunk = ℕ × Bytes

abbrev pub frame : Bytes → Bytes
frame body = to_be 4 (length body) ++ body

-- The frames of `chunks`, the first under the number `counter`.
abbrev pub wire : Aead → Bytes → Bytes → ℕ → List Chunk → Bytes
wire aead key pfx counter [] = []
wire aead key pfx counter ((ts, plain) ∷ chunks) =
    frame (sealed aead key pfx ts counter plain) ++ wire aead key pfx (counter + 1) chunks

abbrev pub plain_of : List Chunk → Bytes
plain_of [] = []
plain_of ((ts, plain) ∷ chunks) = plain ++ plain_of chunks

-- Each message has a plaintext, and its numbers and its size are in range. A DATA body is 29 bytes
-- longer than its plaintext.
abbrev pub AreSendable : ℕ → List Chunk → Type 0
AreSendable counter [] = Unit
AreSendable counter ((ts, plain) ∷ chunks) =
    (0 < length plain)
    × (29 + length plain ≤ max_message_size)
    × (ts < ts_limit)
    × (counter < counter_limit)
    × AreSendable (counter + 1) chunks
