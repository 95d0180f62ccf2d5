-- ===== src/Base/Fallible.antt =====
-- Fallible code: a value, or the refusal that the source throws. A refusal inside a transaction
-- rolls the transaction back, so it carries no state.
use mathlib.Core.Path.{◌≡◌, refl}
use mathlib.Core.Bool.{Bool, true, false}
use mathlib.Core.Option.{Option, none, some}

pub data Outcome {ℓ} (E : Type 0) (A : Type ℓ) : Type ℓ where
  ok : A → Outcome E A
  err : E → Outcome E A

module _ {E : Type 0} where
  infixl 5 ◌>>=◌ ◌>>◌
  abbrev pub ◌>>=◌ {ℓ κ} : {A : Type ℓ} {B : Type κ} → Outcome E A → (A → Outcome E B) → Outcome E B
  ok a >>= next = next a
  err e >>= next = err e

  abbrev pub ◌>>◌ {ℓ κ} : {A : Type ℓ} {B : Type κ} → Outcome E A → Outcome E B → Outcome E B
  first >> second = first >>= λ _. second

  -- `if (refused) throw e;`
  abbrev pub throw_if : Bool → E → Outcome E (Unit {0})
  throw_if true e = err e
  throw_if false e = ok tt

  -- `if (!x) throw e;` for a value that may be missing
  abbrev pub or_throw {ℓ} : {A : Type ℓ} → Option A → E → Outcome E A
  or_throw none e = err e
  or_throw (some a) e = ok a

  -- A chain that succeeds had a first part that did, and the rest succeeds on its value.
  module _ {ℓ κ} {A : Type ℓ} {B : Type κ} where
    pub >>=-eq-ok :
        (first : Outcome E A) (next : A → Outcome E B) {result : B}
        → (first >>= next) ≡ ok result
        → (value : A) × (first ≡ ok value) × (next value ≡ ok result)
    >>=-eq-ok (err e) next done = cc
    >>=-eq-ok (ok value) next done = (value, refl, done)
