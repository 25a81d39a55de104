-- ===== src/Outcome.antt =====
-- What a call of the library comes back with.
-- Python's exceptions are values here. An exception carries its class and its message: the fixed
-- text, with the value that an f-string puts into it.
use uniconn.Json.{Json}
use uniconn.Prelude.{ℕ, String, List, Bool, true, false, ◌≡◌, refl, if◌then◌else◌}

-- `other_error` is any exception of code that is not in the repository.
pub data ExnClass : Type 0 where
  connection_error connection_closed_error value_error runtime_error assertion_error : ExnClass
  struct_error index_error key_error type_error attribute_error file_not_found_error timeout_error
        cancelled_error other_error :
      ExnClass

-- `caused` is a text, a second one, and the exception that the message shows.
mutual
  pub data Message : Type 0 where
    text : String → Message
    text_number : String → ℕ → Message
    text_bytes : String → List ℕ → Message
    text_value : String → Json → Message
    caused : String → String → Exn → Message

  pub data Exn : Type 0 where
    exn : ExnClass → Message → Exn

-- Whether `except Exception` lets it through.
abbrev pub is_cancelled : Exn → Bool
is_cancelled (exn cancelled_error message) = true
is_cancelled e = false

-- `pending` is an `await` that the events given so far do not end.
pub data Outcome {ℓ} (A : Type ℓ) : Type ℓ where
  ok : A → Outcome A
  raised : Exn → Outcome A
  pending : Outcome A

-- `try: ...` and `except Exception: pass`
unfoldable pub quietly : Outcome (Unit {0}) → Outcome (Unit {0})
quietly (raised e) = if is_cancelled e then raised e else ok tt
quietly r = r

module _ {ℓ κ} {A : Type ℓ} {B : Type κ} where
  infixl 10 ◌>>=◌
  abbrev pub ◌>>=◌ : Outcome A → (A → Outcome B) → Outcome B
  pending >>= k = pending
  raised e >>= k = raised e
  ok a >>= k = k a

-- `if test: raise error`
abbrev pub reject : Bool → Exn → Outcome (Unit {0})
reject true e = raised e
reject false e = ok tt

infixl 10 ◌>>◌
abbrev pub ◌>>◌ {κ} : {B : Type κ} → Outcome (Unit {0}) → Outcome B → Outcome B
first >> second = first >>= λ _. second

-- A chain that returned: its first part returned, and so did the rest of it, on that value.
pub both_returned {ℓ κ} :
    {A : Type ℓ} {B : Type κ} (first : Outcome A) (rest : A → Outcome B) {end : B}
    → (first >>= rest) ≡ ok end
    → (mid : A) × (first ≡ ok mid) × (rest mid ≡ ok end)
both_returned pending rest h = cc
both_returned (raised e) rest h = cc
both_returned (ok mid) rest h = (mid, refl, h)
