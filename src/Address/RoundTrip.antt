-- ===== src/Address/RoundTrip.antt =====
-- Splitting an address that was put together.
use Prim.Native.Char.{Char, code}
use Prim.Native.String.append
use Prim.Native.String.{◌++◌ as str_append}
use uniconn.Prelude.{◌≡◌, refl, ap, ◌∙◌, String, false, Option, none, some, ◌==◌}
use uniconn.Address.{rsplit_colon, last_part, after_colon}

-- The text has no colon.
abbrev pub NoColon : String → Type 0
NoColon String.[] = Unit
NoColon (String.◌∷◌ c s) = ((code c == b':') ≡ false) × NoColon s

rsplit_colon-none : (port : String) → NoColon port → rsplit_colon port ≡ none
unfolding rsplit_colon
rsplit_colon-none String.[] h = refl
rsplit_colon-none (String.◌∷◌ c s) h = rw (rsplit_colon-none s h.1, h.0) refl

abbrev colon : Char
colon = ":"

colon_port : (port : String) → NoColon port → rsplit_colon (str_append ":" port) ≡ some ("", port)
unfolding rsplit_colon
colon_port port h =
    ap rsplit_colon (append.cons colon "" port ∙ ap (λ t. String.◌∷◌ colon t) (append.nil port))
    ∙ rw (rsplit_colon-none port h) refl

prepend : Char → Option (String × String) → Option (String × String)
prepend c none = none
prepend c (some (host, port)) = some (String.◌∷◌ c host, port)

rsplit_colon-cons :
    (c : Char) (s host port : String)
    → rsplit_colon s ≡ some (host, port)
    → rsplit_colon (String.◌∷◌ c s) ≡ some (String.◌∷◌ c host, port)
unfolding rsplit_colon
rsplit_colon-cons c s host port h = rw h refl

-- `host:port` splits into the host and the port, whatever colons the host has, if the port has none.
pub rsplit_colon-append :
    (host port : String)
    → NoColon port
    → rsplit_colon (str_append host (str_append ":" port)) ≡ some (host, port)
rsplit_colon-append String.[] port h =
    ap rsplit_colon (append.nil (str_append ":" port)) ∙ colon_port port h
rsplit_colon-append (String.◌∷◌ c s) port h =
    ap rsplit_colon (append.cons c s (str_append ":" port))
    ∙ rsplit_colon-cons c (str_append s (str_append ":" port)) s port (rsplit_colon-append s port h)

-- The last part of `host:port` is the port, if it has no colon.
after_colon-none : (found port : String) → NoColon port → after_colon found port ≡ found
unfolding after_colon
after_colon-none found String.[] h = refl
after_colon-none found (String.◌∷◌ c s) h = rw h.0 (after_colon-none found s h.1)

after_colon-append :
    (host port found : String)
    → NoColon port
    → after_colon found (str_append host (str_append ":" port)) ≡ port
unfolding after_colon
after_colon-append String.[] port found h =
    ap (after_colon found) (
      append.nil (str_append ":" port)
      ∙ (append.cons colon "" port ∙ ap (λ t. String.◌∷◌ colon t) (append.nil port)))
    ∙ after_colon-none port port h
after_colon-append (String.◌∷◌ c s) port found h =
    ap (after_colon found) (append.cons c s (str_append ":" port)) ∙ after_colon-append s port _ h

pub last_part-append :
    (host port : String) → NoColon port → last_part (str_append host (str_append ":" port)) ≡ port
unfolding last_part
last_part-append host port h = after_colon-append host port _ h
