-- ===== src/Json/Access.antt =====
-- What Python code does with a value that `json.loads` returned: subscripts, `get`, and iteration.
use package.text.Mathlib.Text.{◌==◌ as str_eq}
use uniconn.Prelude.{◌≡◌, ◌==◌, String, Bool, false, Option, none, some, [], ◌∷◌}
use uniconn.Outcome.{Outcome, ok, raised, exn, key_error, type_error, attribute_error, text}
use uniconn.Struct.{Bytes}
use uniconn.Json.{Json, string, object, lookup}

-- Python's json module, on UTF-8 bytes: `json.loads(line.decode("utf-8"))` and
-- `json.dumps(value).encode("utf-8")`.
pub record JsonCodec : Type 0 where
  pub loads : Bytes → Outcome Json
  pub dumps : Json → Bytes

-- No byte of it is a line feed.
abbrev pub NoNewline : Bytes → Type 0
NoNewline [] = Unit
NoNewline (b ∷ bs) = ((b == 10) ≡ false) × NoNewline bs

-- Documented behaviour, for one value: what was dumped loads again.
pub record CodecLaws (codec : JsonCodec) (v : Json) : Type 0 where
  pub loads_dumps : codec.loads (codec.dumps v) ≡ ok v
  -- `dumps` with no `indent` writes no line break, and escapes those inside strings.
  pub one_line : NoNewline (codec.dumps v)

abbrev pub or_key_error : String → Option Json → Outcome Json
or_key_error k none = raised (exn key_error (text k))
or_key_error k (some v) = ok v

-- `value[k]`, for a string `k`
unfoldable pub subscript : String → Json → Outcome Json
subscript k (object others) = or_key_error k (lookup k others)
subscript k v = raised (exn type_error (text "not subscriptable by a string"))

abbrev pub or_default : Json → Option Json → Json
or_default d none = d
or_default d (some v) = v

-- `value.get(k, d)`
unfoldable pub get_or : String → Json → Json → Outcome Json
get_or k d (object others) = ok (or_default d (lookup k others))
get_or k d v = raised (exn attribute_error (text "no attribute 'get'"))

-- `value == s`, for a string `s`
unfoldable pub equals_string : String → Json → Bool
equals_string s (string t) = str_eq t s
equals_string s v = false
