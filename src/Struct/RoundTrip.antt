-- ===== src/Struct/RoundTrip.antt =====
-- struct.pack and struct.unpack, one behind the other.
use native.Mathlib.Nat.{pow-suc}
use uniconn.Prelude.{
  ℕ, zero, suc, ◌+◌, ◌*◌, ◌/◌, ◌%◌, ◌^◌, ◌<◌, ◌≡◌, refl, sym, [], ◌∷◌, ◌++◌, arith, length,
  length-append, lt→ltb, le→ltb_false, ==_refl, take-append_exact, drop-append_exact, drop-drop,
}
use uniconn.Outcome.{ok}
use uniconn.Struct.{Bytes, to_be, from_be_onto, from_be, pack, unpack, pack_into}

pub length-to_be : (k n : ℕ) → length (to_be k n) ≡ k
unfolding to_be
length-to_be zero n = refl
length-to_be (suc k) n =
    omega (arith, length-append (to_be k (n / 256)) ((n % 256) ∷ []), length-to_be k (n / 256))

from_be_onto-append :
    (acc : ℕ) (xs ys : Bytes) → from_be_onto acc (xs ++ ys) ≡ from_be_onto (from_be_onto acc xs) ys
unfolding from_be_onto
from_be_onto-append acc [] ys = refl
from_be_onto-append acc (x ∷ xs) ys = from_be_onto-append (acc * 256 + x) xs ys

from_be_step : (bs : Bytes) (d : ℕ) → from_be (bs ++ d ∷ []) ≡ from_be bs * 256 + d
unfolding from_be
from_be_step bs d = from_be_onto-append 0 bs (d ∷ [])

pub from_be-to_be : (k n : ℕ) → n < 256 ^ k → from_be (to_be k n) ≡ n
unfolding to_be
from_be-to_be zero n h = unfold from_be in omega arith
from_be-to_be (suc k) n h =
    let fits : n / 256 < 256 ^ k =
      let e : 256 ^ suc k ≡ 256 ^ k * 256 = pow-suc 256 k in omega arith in
    omega (arith, from_be_step (to_be k (n / 256)) (n % 256), from_be-to_be k (n / 256) fits)

-- A number that fits is packed.
pub pack-ok : (k n : ℕ) → n < 256 ^ k → pack k n ≡ ok (to_be k n)
unfolding pack
pack-ok k n h = rw (lt→ltb _ _ h)

-- What was packed in k bytes is unpacked from them.
pub unpack-to_be : (k n : ℕ) → n < 256 ^ k → unpack k (to_be k n) ≡ ok n
unfolding unpack
unpack-to_be k n h = rw (length-to_be k n, ==_refl k, from_be-to_be k n h)

-- Writing over the middle of a buffer.
pub pack_into-ok :
    (k n offset : ℕ) (front old back : Bytes)
    → offset ≡ length front
    → length old ≡ k
    → n < 256 ^ k
    → pack_into k (front ++ (old ++ back)) offset n ≡ ok (front ++ (to_be k n ++ back))
unfolding pack_into
pack_into-ok k n offset front old back at_front sized h = rw (
  le→ltb_false (length (front ++ (old ++ back))) (offset + k)
      (omega (arith, length-append front (old ++ back), length-append old back)),
  lt→ltb _ _ h,
  take-append_exact offset front (old ++ back) at_front,
  ← drop-drop k offset (front ++ (old ++ back)),
  drop-append_exact offset front (old ++ back) at_front,
  drop-append_exact k old back (sym sized),
)
