-- ===== src/P2p/Hex.antt =====
-- `bytes.hex` and `bytes.fromhex`, which p2p/node.py uses for fingerprints.
use Prim.Native.Char.{code}
use Prim.Native.String.{◌++◌ as str_append}
use uniconn.Prelude.{
  ℕ, ◌+◌, ◌*◌, ◌/◌, ◌%◌, ◌-◌, String, Bool, true, false, ◌&&◌, ◌||◌, List, [], ◌∷◌, leb, ◌==◌,
  if◌then◌else◌,
}
use uniconn.Outcome.{Outcome, ok, raised, Exn, exn, value_error, text, ◌>>=◌}
use uniconn.Struct.{Bytes}

-- The code points of a text.
abbrev pub codes : String → List ℕ
codes String.[] = []
codes (String.◌∷◌ c s) = code c ∷ codes s

abbrev pub digit : ℕ → String
digit n =
    if n == 0
    then "0"
    else if n == 1
    then "1"
    else if n == 2
    then "2"
    else if n == 3
    then "3"
    else if n == 4
    then "4"
    else if n == 5
    then "5"
    else if n == 6
    then "6"
    else if n == 7
    then "7"
    else if n == 8
    then "8"
    else if n == 9
    then "9"
    else if n == 10
    then "a"
    else if n == 11
    then "b"
    else if n == 12
    then "c"
    else if n == 13
    then "d"
    else if n == 14
    then "e"
    else "f"

unfoldable pub hex : Bytes → String
hex [] = ""
hex (b ∷ bs) = str_append (digit (b / 16)) (str_append (digit (b % 16)) (hex bs))

abbrev pub not_hex : Exn
not_hex = exn value_error (text "non-hexadecimal number found in fromhex() arg")

abbrev pub nibble : ℕ → Outcome ℕ
nibble c =
    if leb b'0' c && leb c b'9'
    then ok (c - b'0')
    else if leb b'a' c && leb c b'f'
    then ok (c - b'a' + 10)
    else if leb b'A' c && leb c b'F'
    then ok (c - b'A' + 10)
    else raised not_hex

-- White space in ASCII, which may stand between two bytes.
abbrev pub is_space : ℕ → Bool
is_space c = (c == 32) || (leb 9 c && leb c 13)

unfoldable pub bytes_of_codes : List ℕ → Outcome Bytes
bytes_of_codes [] = ok []
bytes_of_codes (c ∷ []) = if is_space c then ok [] else raised not_hex
bytes_of_codes (c ∷ d ∷ cs) = elim (is_space c) [
  | true ↦ bytes_of_codes (d ∷ cs)
  | false ↦ nibble c >>= λ hi.
      nibble d >>= λ lo. bytes_of_codes cs >>= λ bytes. ok ((16 * hi + lo) ∷ bytes)
]

-- `bytes.fromhex(s)`
unfoldable pub fromhex : String → Outcome Bytes
fromhex s = bytes_of_codes (codes s)
