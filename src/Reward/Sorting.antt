-- ===== src/Reward/Sorting.antt =====
-- The stable sort and the where-clause as operations on what a list holds.
use re_loop.Base.{
  ◌≡◌, refl, ◌⊎◌, inl, inr, Bool, true, false, Option, none, some, List, [], ◌∷◌, All, arith,
  Bool-cases, where_rows,
}
use re_loop.Reward.Rates.{insert_sorted, sort_rows, first_row}

module _ {A : Type 0} where
  abbrev pub Has : A → List A → Type 0
  Has x [] = ⊥
  Has x (y ∷ l) = (y ≡ x) ⊎ Has x l

  -- The first of a sorted list: it is in the list, and nothing in the list comes before it.
  abbrev pub IsFirst : (A → A → Bool) → List A → Option A → Type 0
  IsFirst before l none = All (λ _. ⊥) l
  IsFirst before l (some h) = Has h l × All (λ y. before y h ≡ false) l

  pub Has-where :
      (p : A → Bool) (x : A) (l : List A) → Has x (where_rows p l) → Has x l × (p x ≡ true)
  Has-where p x [] h = absurd h
  Has-where p x (y ∷ l) h = elim (Bool-cases (p y)) [
    | inl e ↦ elim (rw e at h) [
      | inl here ↦ (inl here, rw (← here) e)
      | inr there ↦ let (later, passes) = Has-where p x l there in (inr later, passes)
    ]
    | inr e ↦ let (later, passes) = Has-where p x l (rw e at h) in (inr later, passes)
  ]

  -- What holds of the rows that pass holds of each row if it passes.
  pub where-All :
      (P : A → Type 0) (p : A → Bool) (l : List A)
      → All P (where_rows p l)
      → All (λ x. p x ≡ true → P x) l
  where-All P p [] h = tt
  where-All P p (y ∷ l) h = elim (Bool-cases (p y)) [
    | inl e ↦ let (first, rest) = rw e at h in ((λ _. first), where-All P p l rest)
    | inr e ↦ ((λ t. absurd (ground arith)), where-All P p l (rw e at h))
  ]

  module _ (before : A → A → Bool) where
    insert-Has : (a x : A) (l : List A) → Has x (insert_sorted before a l) → (a ≡ x) ⊎ Has x l
    unfolding insert_sorted
    insert-Has a x [] h = h
    insert-Has a x (y ∷ l) h = elim (Bool-cases (before y a)) [
      | inr e ↦ rw e at h
      | inl e ↦ elim (rw e at h) [
        | inl here ↦ inr (inl here)
        | inr there ↦ elim (insert-Has a x l there) [ inl new ↦ inl new | inr old ↦ inr (inr old) ]
      ]
    ]

    pub sort-Has : (x : A) (l : List A) → Has x (sort_rows before l) → Has x l
    unfolding sort_rows
    sort-Has x [] h = h
    sort-Has x (y ∷ l) h = elim (insert-Has y x (sort_rows before l) h) [
      | inl here ↦ inl here
      | inr there ↦ inr (sort-Has x l there)
    ]

    insert-All :
        (P : A → Type 0) (a : A) (l : List A) → All P (insert_sorted before a l) → P a × All P l
    unfolding insert_sorted
    insert-All P a [] h = h
    insert-All P a (y ∷ l) h = elim (Bool-cases (before y a)) [
      | inr e ↦ rw e at h
      | inl e ↦
          let (first, rest) = rw e at h in
          let (new, old) = insert-All P a l rest in (new, (first, old))
    ]

    pub sort-All : (P : A → Type 0) (l : List A) → All P (sort_rows before l) → All P l
    unfolding sort_rows
    sort-All P [] h = tt
    sort-All P (y ∷ l) h =
        let (first, rest) = insert-All P y (sort_rows before l) h in (first, sort-All P l rest)

    module _ (asym : (x y : A) → before x y ≡ true → before y x ≡ false)
        (cotrans : (x y z : A) → before x y ≡ false → before y z ≡ false → before x z ≡ false) where
      irrefl : (x : A) → before x x ≡ false
      irrefl x = elim (Bool-cases (before x x)) [ inl e ↦ asym x x e | inr e ↦ e ]

      All-cotrans :
          (h x : A) (l : List A)
          → before h x ≡ false
          → All (λ y. before y h ≡ false) l
          → All (λ y. before y x ≡ false) l
      All-cotrans h x [] e a = tt
      All-cotrans h x (y ∷ l) e a = (cotrans y h x a.0 e, All-cotrans h x l e a.1)

      insert-IsFirst :
          (a : A) (l all : List A)
          → IsFirst before all (first_row l)
          → IsFirst before (a ∷ all) (first_row (insert_sorted before a l))
      unfolding insert_sorted
      insert-IsFirst a [] [] f = (inl refl, (irrefl a, tt))
      insert-IsFirst a [] (y ∷ all) f = absurd f.0
      insert-IsFirst a (h ∷ l) all f = elim (Bool-cases (before h a)) [
        | inl e ↦ rw e (inr f.0, (asym h a e, f.1))
        | inr e ↦ rw e (inl refl, (irrefl a, All-cotrans h a all e f.1))
      ]

      pub sort-IsFirst : (l : List A) → IsFirst before l (first_row (sort_rows before l))
      unfolding sort_rows
      sort-IsFirst [] = tt
      sort-IsFirst (x ∷ l) = insert-IsFirst x (sort_rows before l) l (sort-IsFirst l)

  -- What holds of every row holds of every row once sorted.
  module _ (P : A → Type 0) (before : A → A → Bool) where
    insert_keeps : (a : A) (l : List A) → P a → All P l → All P (insert_sorted before a l)
    unfolding insert_sorted
    insert_keeps a [] p h = (p, tt)
    insert_keeps a (y ∷ l) p h = elim (Bool-cases (before y a)) [
      | inl e ↦ rw e (h.0, insert_keeps a l p h.1)
      | inr e ↦ rw e (p, h)
    ]

    pub sort_keeps : (l : List A) → All P l → All P (sort_rows before l)
    unfolding sort_rows
    sort_keeps [] h = tt
    sort_keeps (x ∷ l) h = insert_keeps x (sort_rows before l) h.0 (sort_keeps l h.1)
