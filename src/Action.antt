-- ===== src/Action.antt =====
-- A method of a mutable object: from the state to an outcome and the new state. What was written
-- before an exception stays written, so the state comes back beside the exception too.
use uniconn.Prelude.{Bool, true, false}
use uniconn.Outcome.{Outcome, ok, raised, pending, Exn}

abbrev pub Action {ℓ κ} : Type ℓ → Type κ → Type (ℓ ⊔ κ)
Action S A = S → Outcome A × S

module _ {ℓ κ} {S : Type ℓ} {A : Type κ} where
  abbrev pub pure : A → Action S A
  pure a s = (ok a, s)

  abbrev pub raise : Exn → Action S A
  raise e s = (raised e, s)

  abbrev pub lift : Outcome A → Action S A
  lift r s = (r, s)

module _ {ℓ κ} {S : Type ℓ} {A B : Type κ} where
  abbrev pub continue : Outcome A → (A → Action S B) → Action S B
  continue (ok a) f s = f a s
  continue (raised e) f s = (raised e, s)
  continue pending f s = (pending, s)

  infixl 10 ◌>>=◌
  abbrev pub ◌>>=◌ : Action S A → (A → Action S B) → Action S B
  ◌>>=◌ m f s = let (r, s') = m s in continue r f s'

infixl 10 ◌>>◌
abbrev pub ◌>>◌ {ℓ} : {S : Type ℓ} {B : Type 0} → Action S (Unit {0}) → Action S B → Action S B
m >> k = m >>= λ _. k

-- `if test: raise error`
abbrev pub reject {ℓ} : {S : Type ℓ} → Bool → Exn → Action S (Unit {0})
reject true e s = (raised e, s)
reject false e s = (ok tt, s)
