-- ===== src/Secure/Message/RoundTrip.antt =====
-- Marshalling and unmarshalling the HELLO bodies of secure/message.py.
use uniconn.Prelude.{
  ℕ, ◌+◌, ◌-◌, ◌≤◌, ◌<◌, ◌≡◌, refl, sym, ap, ◌∙◌, [], ◌∷◌, ◌++◌, append_assoc, append-nil, subst,
  arith, length, drop, length-append, take-append_exact, drop-append_exact, drop-drop, lt→ltb,
}
use uniconn.Outcome.{ok}
use uniconn.Struct.{Bytes, to_be, slice}
use uniconn.Struct.RoundTrip.{length-to_be, pack-ok, unpack-to_be}
use uniconn.Secure.Message.{
  Hello, max_message_size, append_byte, field, hello_body, framed, marshal_hello, field_at,
  unmarshal_hello,
}

-- A field on the wire.
abbrev pub wire_field : Bytes → Bytes
wire_field part = to_be 2 (length part) ++ part

field-ok : (part : Bytes) → length part < 65536 → field part ≡ ok (wire_field part)
unfolding field
field-ok part h = rw (pack-ok 2 (length part) h)

-- The body of a HELLO on the wire.
abbrev pub wire_hello : Hello → Bytes
wire_hello h =
    h.msg_type ∷ (wire_field h.public_key ++ (wire_field h.payload ++ wire_field h.signature))

pub record IsSendable (h : Hello) : Type 0 where
  pub type_fits : h.msg_type < 256
  pub key_fits : length h.public_key < 65536
  pub payload_fits : length h.payload < 65536
  pub signature_fits : length h.signature < 65536

pub hello_body-ok :
    (h : Hello)
    → IsSendable h
    → hello_body h.msg_type h.public_key h.payload h.signature ≡ ok (wire_hello h)
unfolding hello_body append_byte
hello_body-ok h fits = rw (
  lt→ltb _ _ fits.type_fits,
  field-ok _ fits.key_fits,
  field-ok _ fits.payload_fits,
  field-ok _ fits.signature_fits,
)

-- A field that stands at `off` is read, and what follows it stands at the offset returned.
module _ (off : ℕ) (body part rest : Bytes) (short : length part < 65536)
    (here : drop off body ≡ wire_field part ++ rest) where
  here' : drop off body ≡ to_be 2 (length part) ++ (part ++ rest)
  here' = here ∙ append_assoc (to_be 2 (length part)) part rest

  behind_size : drop (off + 2) body ≡ part ++ rest
  behind_size =
      sym (drop-drop 2 off body)
      ∙ (ap (drop 2) here'
          ∙ drop-append_exact 2 (to_be 2 (length part)) (part ++ rest) (sym (length-to_be 2 _)))

  behind_field : drop (off + 2 + length part) body ≡ rest
  behind_field =
      sym (drop-drop (length part) (off + 2) body)
      ∙ (ap (drop (length part)) behind_size ∙ drop-append_exact (length part) part rest refl)

  size_slice : slice off (off + 2) body ≡ to_be 2 (length part)
  size_slice =
      let e : off + 2 - off ≡ 2 = omega arith in
      rw (e, here')
        (take-append_exact 2 (to_be 2 (length part)) (part ++ rest) (sym (length-to_be 2 _)))

  part_slice : slice (off + 2) (off + 2 + length part) body ≡ part
  part_slice =
      let e : off + 2 + length part - (off + 2) ≡ length part = omega arith in
      rw (e, behind_size) (take-append_exact (length part) part rest refl)

  field_at-wire : field_at off body ≡ ok (part, off + 2 + length part)
  unfolding field_at
  field_at-wire = rw (size_slice, unpack-to_be 2 (length part) short, part_slice)

-- `unmarshal_hello` reads a HELLO from a body that begins with it, and ignores what follows.
pub unmarshal_hello-wire :
    (h : Hello) (extra : Bytes) → IsSendable h → unmarshal_hello (wire_hello h ++ extra) ≡ ok h
unfolding unmarshal_hello
unmarshal_hello-wire h extra fits =
    let body : Bytes = wire_hello h ++ extra in
    let key = h.public_key in
    let load = h.payload in
    let sig = h.signature in
    let key_here : drop 1 body ≡ wire_field key ++ (wire_field load ++ (wire_field sig ++ extra)) =
      append_assoc (wire_field key) (wire_field load ++ wire_field sig) extra
      ∙ ap (λ t. wire_field key ++ t) (append_assoc (wire_field load) (wire_field sig) extra) in
    let key_end : ℕ = 1 + 2 + length key in
    let load_here = behind_field 1 body key _ fits.key_fits key_here in
    let load_end : ℕ = key_end + 2 + length load in
    let sig_here = behind_field key_end body load _ fits.payload_fits load_here in
    rw (
      field_at-wire 1 body key _ fits.key_fits key_here,
      field_at-wire key_end body load _ fits.payload_fits load_here,
      field_at-wire load_end body sig _ fits.signature_fits sig_here,
    )

pub framed-ok :
    (body : Bytes) → length body < 4294967296 → framed body ≡ ok (to_be 4 (length body) ++ body)
unfolding framed
framed-ok body h = rw (pack-ok 4 (length body) h)

length-wire_field : (part : Bytes) → length (wire_field part) ≡ 2 + length part
length-wire_field part =
    omega (arith, length-append (to_be 2 (length part)) part, length-to_be 2 (length part))

pub length-wire_hello :
    (h : Hello)
    → length (wire_hello h) ≡ 7 + length h.public_key + length h.payload + length h.signature
length-wire_hello h = omega (
  arith,
  length-append (wire_field h.public_key) (wire_field h.payload ++ wire_field h.signature),
  length-append (wire_field h.payload) (wire_field h.signature),
  length-wire_field h.public_key,
  length-wire_field h.payload,
  length-wire_field h.signature,
)

pub length-wire_hello_small : (h : Hello) → IsSendable h → length (wire_hello h) ≤ max_message_size
length-wire_hello_small h fits = omega (arith, length-wire_hello h, fits)

pub marshal_hello-ok :
    (h : Hello)
    → IsSendable h
    → marshal_hello h.msg_type h.public_key h.payload h.signature
      ≡ ok (to_be 4 (length (wire_hello h)) ++ wire_hello h)
unfolding marshal_hello
marshal_hello-ok h fits =
    rw (hello_body-ok h fits)
      (framed-ok (wire_hello h) (omega (arith, length-wire_hello_small h fits)))

-- For a message type below 256 and three fields below 2^16 bytes, `marshal_hello` succeeds with a
-- frame: four bytes that hold the body's length, and a body from which `unmarshal_hello` reads the
-- type and the three fields back.
pub unmarshal_hello-marshal_hello :
    (h : Hello)
    → IsSendable h
    → (body : Bytes) × (marshal_hello h.msg_type h.public_key h.payload h.signature
        ≡ ok (to_be 4 (length body) ++ body))
      × (unmarshal_hello body ≡ ok h)
unmarshal_hello-marshal_hello h fits = (
  wire_hello h,
  marshal_hello-ok h fits,
  subst (λ b. unmarshal_hello b ≡ ok h) (append-nil (wire_hello h))
      (unmarshal_hello-wire h [] fits),
)
