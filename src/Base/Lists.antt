-- ===== src/Base/Lists.antt =====
-- Lists read as database tables and as JavaScript arrays.
use Prim.Native.Nat.{ℕ, suc}
use mathlib.Core.Bool.{Bool, false, ◌||◌}
use mathlib.Core.Option.{Option, none, some}
use mathlib.Core.List.{List, [], ◌∷◌}
use re_loop.Base.Tests.{if◌then◌else◌}

module _ {ℓ} {A : Type ℓ} where
  abbrev pub length : List A → ℕ
  length [] = 0
  length (x ∷ xs) = suc (length xs)

  -- The rows that a where-clause keeps, in order.
  abbrev pub where_rows : (A → Bool) → List A → List A
  where_rows p [] = []
  where_rows p (x ∷ xs) = let rest = where_rows p xs in if p x then x ∷ rest else rest

  -- `findFirst`, and `findUnique` on a key.
  abbrev pub find_row : (A → Bool) → List A → Option A
  find_row p [] = none
  find_row p (x ∷ xs) = let rest = find_row p xs in if p x then some x else rest

  -- `updateMany`: every row that the where-clause keeps.
  abbrev pub update_rows : (A → Bool) → (A → A) → List A → List A
  update_rows p f [] = []
  update_rows p f (x ∷ xs) = (if p x then f x else x) ∷ update_rows p f xs

  -- `includes`, `some`: a test that some element passes.
  abbrev pub any_of : (A → Bool) → List A → Bool
  any_of p [] = false
  any_of p (x ∷ xs) = p x || any_of p xs

  abbrev pub All {κ} : (A → Type κ) → List A → Type κ
  All P [] = Unit
  All P (x ∷ xs) = P x × All P xs
