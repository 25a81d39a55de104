-- ===== src/Struct.antt =====
-- Byte strings, and the calls of Python's `struct` that the library makes: big-endian packing of
-- unsigned numbers in 2, 4 and 8 bytes, and slices of byte strings.
pub mod RoundTrip
use uniconn.Prelude.{
  ℕ, zero, suc, ◌+◌, ◌-◌, ◌*◌, ◌/◌, ◌%◌, ◌^◌, List, [], ◌∷◌, ◌++◌, ltb, ◌==◌, length, take, drop,
  if◌then◌else◌,
}
use uniconn.Outcome.{Outcome, ok, raised, exn, struct_error, text}

-- `bytes` and `bytearray`; each member is below 256.
abbrev pub Bytes : Type 0
Bytes = List ℕ

-- n in k bytes, most significant byte first.
unfoldable pub to_be : ℕ → ℕ → Bytes
to_be zero n = []
to_be (suc k) n = to_be k (n / 256) ++ (n % 256) ∷ []

unfoldable pub from_be_onto : ℕ → Bytes → ℕ
from_be_onto acc [] = acc
from_be_onto acc (b ∷ bs) = from_be_onto (acc * 256 + b) bs

unfoldable pub from_be : Bytes → ℕ
unfolding from_be_onto
from_be bs = from_be_onto 0 bs

-- `struct.pack("!H" | "!I" | "!Q", n)` at k = 2, 4, 8: an error where n does not fit.
unfoldable pub pack : ℕ → ℕ → Outcome Bytes
unfolding to_be
pack k n =
    if ltb n (256 ^ k)
    then ok (to_be k n)
    else raised (exn struct_error (text "argument out of range"))

-- `struct.unpack(...)[0]`: an error where the buffer has another length.
unfoldable pub unpack : ℕ → Bytes → Outcome ℕ
unfolding from_be
unpack k bs =
    if length bs == k
    then ok (from_be bs)
    else raised (exn struct_error (text "unpack requires a buffer of another length"))

-- `buf[lo:hi]` for lo ≤ hi; out of range it is cut off, as in Python.
abbrev pub slice : ℕ → ℕ → Bytes → Bytes
slice lo hi buf = take (hi - lo) (drop lo buf)

-- `buf[lo:hi] = new` of a bytearray, for lo ≤ hi.
abbrev pub set_slice : ℕ → ℕ → Bytes → Bytes → Bytes
set_slice lo hi new buf = take lo buf ++ (new ++ drop hi buf)

-- `struct.pack_into(fmt, buf, offset, n)`.
unfoldable pub pack_into : ℕ → Bytes → ℕ → ℕ → Outcome Bytes
unfolding to_be
pack_into k buf offset n =
    if ltb (length buf) (offset + k)
    then raised (exn struct_error (text "pack_into requires a buffer of another length"))
    else if ltb n (256 ^ k)
    then ok (set_slice offset (offset + k) (to_be k n) buf)
    else raised (exn struct_error (text "argument out of range"))
