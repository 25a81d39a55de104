-- ===== src/Json.antt =====
-- The values of Python's json module, as `json.loads` returns them and `json.dumps` takes them. A
-- `dict` is an association list in which the first entry of a key counts.
pub mod Access
use package.text.Mathlib.Text.{◌==◌ as str_eq}
use uniconn.Prelude.{String, Bool, true, false, not, Option, none, some, if◌then◌else◌}

-- A number is given by its literal, with the zeros told apart, as `bool()` does.
mutual
  pub data Json : Type 0 where
    null : Json
    truth : Bool → Json
    zero_number number : String → Json
    string : String → Json
    array : Items → Json
    object : Fields → Json

  pub data Items : Type 0 where
    no_items : Items
    item : Json → Items → Items

  pub data Fields : Type 0 where
    no_fields : Fields
    entry : String → Json → Fields → Fields

-- The entry of a key.
unfoldable pub lookup : String → Fields → Option Json
lookup k no_fields = none
lookup k (entry j v others) = if str_eq j k then some v else lookup k others

-- `bool(value)`
unfoldable pub truthy : Json → Bool
truthy null = false
truthy (truth b) = b
truthy (zero_number literal) = false
truthy (number literal) = true
truthy (string s) = not (str_eq s "")
truthy (array no_items) = false
truthy (array (item v items)) = true
truthy (object no_fields) = false
truthy (object (entry k v others)) = true
