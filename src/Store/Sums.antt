-- ===== src/Store/Sums.antt =====
-- Table operations on unique keys, and the sums that the invariants speak of.
use re_loop.Base.{
  ℕ, ◌+◌, ◌≡◌, Bool, true, some, List, [], ◌∷◌, ◌++◌, arith, if◌then◌else◌, find_row, All,
  Bool-cases, inl, inr, subst,
}

module _ {ℓ} {A : Type ℓ} where
  -- `update` by a unique key: the row that `find_row` finds.
  abbrev pub update_row : (A → Bool) → (A → A) → List A → List A
  update_row p g [] = []
  update_row p g (x ∷ xs) = let rest = update_row p g xs in if p x then g x ∷ xs else x ∷ rest

  abbrev pub sum_by : (A → ℕ) → List A → ℕ
  sum_by f [] = 0
  sum_by f (x ∷ xs) = f x + sum_by f xs

  -- Replacing one row moves a sum by what that row contributes.
  pub sum_by-update_row :
      (f : A → ℕ) (p : A → Bool) (g : A → A) (xs : List A) (r : A)
      → find_row p xs ≡ some r
      → sum_by f (update_row p g xs) + f r ≡ sum_by f xs + f (g r)
  sum_by-update_row f p g [] r h = ground arith
  sum_by-update_row f p g (x ∷ xs) r h = ground (arith, sum_by-update_row f p g xs r)

  pub sum_by-append : (f : A → ℕ) (xs ys : List A) → sum_by f (xs ++ ys) ≡ sum_by f xs + sum_by f ys
  sum_by-append f [] ys = omega arith
  sum_by-append f (x ∷ xs) ys = omega (arith, sum_by-append f xs ys)

  -- A row that is found passes the test, and satisfies what all rows do.
  pub find_row-test : (p : A → Bool) (xs : List A) (r : A) → find_row p xs ≡ some r → p r ≡ true
  find_row-test p [] r h = ground arith
  find_row-test p (x ∷ xs) r h = ground (arith, find_row-test p xs r)

  pub find_row-All {κ} :
      (P : A → Type κ) (p : A → Bool) (xs : List A) (r : A)
      → All P xs
      → find_row p xs ≡ some r
      → P r
  find_row-All P p [] r a h = absurd (ground arith)
  find_row-All P p (x ∷ xs) r a h = elim (Bool-cases (p x)) [
    | inl e ↦ let q : x ≡ r = ground arith in subst P q a.0
    | inr e ↦ find_row-All P p xs r a.1 (rw e at h)
  ]

  pub update_row-All {κ} :
      (P : A → Type κ) (p : A → Bool) (g : A → A) (xs : List A) (r : A)
      → All P xs
      → find_row p xs ≡ some r
      → P (g r)
      → All P (update_row p g xs)
  update_row-All P p g [] r a h q = tt
  update_row-All P p g (x ∷ xs) r a h q = elim (Bool-cases (p x)) [
    | inl e ↦ let same : r ≡ x = ground arith in rw e (subst (λ y. P (g y)) same q, a.1)
    | inr e ↦ rw e (a.0, update_row-All P p g xs r a.1 (rw e at h) q)
  ]

  pub append-All {κ} : (P : A → Type κ) (xs ys : List A) → All P xs → All P ys → All P (xs ++ ys)
  append-All P [] ys a b = b
  append-All P (x ∷ xs) ys a b = (a.0, append-All P xs ys a.1 b)
