-- ===== src/Deposit/Tables.antt =====
-- Writes to tables with distinct identifiers, as one pass over the rows.
use re_loop.Base.{
  ℕ, ◌≡◌, refl, sym, ◌∙◌, ap, Bool, true, false, ◌||◌, some, List, [], ◌∷◌, ◌==◌, All, arith,
  Bool-cases, inl, inr, update_rows, where_rows, any_of,
}
use re_loop.Store.{update_row, Distinct, Apart, Found, All-map, Found-All, Keyed, Older}
use re_loop.Reward.{sort_rows}
use re_loop.Reward.Sorting.{Has, Has-where, where-All, sort-Has, sort-All}

module _ {A : Type 0} (key : A → ℕ) where
  -- No row of another identifier is written.
  update_rows-Apart :
      (x : A) (g : A → A) (l : List A)
      → All (Apart key x) l
      → update_rows (λ y. key y == key x) g l ≡ l
  update_rows-Apart x g [] h = refl
  update_rows-Apart x g (y ∷ l) h = ground (arith, h.0, update_rows-Apart x g l h.1)

  update_rows-absent :
      (i : ℕ) (x : A) (g : A → A) (l : List A)
      → All (Apart key x) l
      → (key x == i) ≡ true
      → update_rows (λ y. key y == i) g l ≡ l
  update_rows-absent i x g l h e =
      let same : i ≡ key x = ground arith in rw same (update_rows-Apart x g l h)

  -- With distinct identifiers, `update` and `updateMany` by identifier agree.
  pub update_row-update_rows :
      (i : ℕ) (g : A → A) (l : List A)
      → Distinct key l
      → update_row (λ y. key y == i) g l ≡ update_rows (λ y. key y == i) g l
  update_row-update_rows i g [] d = refl
  update_row-update_rows i g (x ∷ l) d = elim (Bool-cases (key x == i)) [
    | inl e ↦ rw e (ap (λ t. g x ∷ t) (sym (update_rows-absent i x g l d.0 e)))
    | inr e ↦ rw e (ap (λ t. x ∷ t) (update_row-update_rows i g l d.1))
  ]

  pub Distinct-update_rows :
      (p : A → Bool) (g : A → A) (l : List A)
      → ((c : A) → key (g c) ≡ key c)
      → Distinct key l
      → Distinct key (update_rows p g l)
  Distinct-update_rows p g [] keep d = tt
  Distinct-update_rows p g (x ∷ l) keep d = elim (Bool-cases (p x)) [
    | inl e ↦ rw e (
      apart_rows (g x) l
          (All-map (Apart key x) (Apart key (g x)) l (λ c h q. h (sym (keep x) ∙ q)) d.0),
      Distinct-update_rows p g l keep d.1,
    )
    | inr e ↦ rw e (apart_rows x l d.0, Distinct-update_rows p g l keep d.1)
  ]
    where
      apart_rows :
          (y : A) (l : List A) → All (Apart key y) l → All (Apart key y) (update_rows p g l)
      apart_rows y [] h = tt
      apart_rows y (z ∷ l) h = elim (Bool-cases (p z)) [
        | inl e ↦ rw e ((λ q. h.0 (q ∙ keep z)), apart_rows y l h.1)
        | inr e ↦ rw e (h.0, apart_rows y l h.1)
      ]

  -- Two passes with one idempotent write are one.
  pub update_rows-twice :
      (p q : A → Bool) (g : A → A) (l : List A)
      → ((c : A) → g (g c) ≡ g c)
      → update_rows q g (update_rows p g l) ≡ update_rows (λ c. p c || q c) g l
  update_rows-twice p q g [] idem = refl
  update_rows-twice p q g (x ∷ l) idem = elim (Bool-cases (p x)) [
    | inl e ↦ elim (Bool-cases (q (g x))) [
      | inl f ↦ rw e (rw f (cc (idem x, update_rows-twice p q g l idem)))
      | inr f ↦ rw e (rw f (cc (update_rows-twice p q g l idem)))
    ]
    | inr e ↦ rw e (cc (update_rows-twice p q g l idem))
  ]

  pub update_rows-cong :
      (p q : A → Bool) (g : A → A) (l : List A)
      → All (λ c. p c ≡ q c) l
      → update_rows p g l ≡ update_rows q g l
  update_rows-cong p q g [] h = refl
  update_rows-cong p q g (x ∷ l) h = rw h.0 (cc (update_rows-cong p q g l h.1))

  pub update_rows-none :
      (p : A → Bool) (g : A → A) (l : List A) → All (λ c. p c ≡ false) l → update_rows p g l ≡ l
  update_rows-none p g [] h = refl
  update_rows-none p g (x ∷ l) h = rw h.0 (cc (update_rows-none p g l h.1))

  pub Has-All {ℓ} : (P : A → Type ℓ) (x : A) (l : List A) → All P l → Has x l → P x
  Has-All P x [] a h = absurd h
  Has-All P x (y ∷ l) a h = elim h [ inl e ↦ rw (← e) a.0 | inr t ↦ Has-All P x l a.1 t ]

  pub All-Has {ℓ} : (P : A → Type ℓ) (l : List A) → ((x : A) → Has x l → P x) → All P l
  All-Has P [] k = tt
  All-Has P (x ∷ l) k = (k x (inl refl), All-Has P l (λ y h. k y (inr h)))

  -- Rows with one identifier are one row.
  pub one_row : (x y : A) (l : List A) → Distinct key l → Has x l → Has y l → key x ≡ key y → x ≡ y
  one_row x y l d hx hy e =
      let fx = Has-All (Found key l) x l (Found-All key l d) hx in
      let fy = Has-All (Found key l) y l (Found-All key l d) hy in some_inj (sym fx ∙ (rw e fy))
    where
      some_inj : {a b : A} → some a ≡ some b → a ≡ b
      some_inj h = cc

  any_of-Has :
      (i : ℕ) (l : List A) → any_of (λ q. key q == i) l ≡ true → (x : A) × Has x l × (key x ≡ i)
  any_of-Has i [] h = absurd (ground arith)
  any_of-Has i (y ∷ l) h = elim (Bool-cases (key y == i)) [
    | inl e ↦ (y, inl refl, ground arith)
    | inr e ↦ let (x, there, same) = any_of-Has i l (rw e at h) in (x, inr there, same)
  ]

  pub any_of-All :
      (i : ℕ) (l : List A) → any_of (λ q. key q == i) l ≡ false → All (λ q. (key q == i) ≡ false) l
  any_of-All i [] h = tt
  any_of-All i (y ∷ l) h = (ground arith, any_of-All i l (ground arith))

  -- A row of the table is named by the sorted result of a query exactly when the query keeps it.
  pub named-query :
      (before : A → A → Bool) (p : A → Bool) (l : List A) (x : A)
      → Distinct key l
      → Has x l
      → any_of (λ q. key q == key x) (sort_rows before (where_rows p l)) ≡ p x
  named-query before p l x d there =
      elim (Bool-cases (any_of (λ q. key q == key x) (sort_rows before (where_rows p l)))) [
        | inl e ↦
            let (y, sorted, same) = any_of-Has (key x) (sort_rows before (where_rows p l)) e in
            let (listed, passes) = Has-where p y l (sort-Has before y (where_rows p l) sorted) in
            let equal = one_row x y l d there listed (sym same) in e ∙ sym (rw equal passes)
        | inr e ↦
            let absent =
              where-All (λ q. (key q == key x) ≡ false) p l
                (sort-All before (λ q. (key q == key x) ≡ false) (where_rows p l)
                  (any_of-All (key x) (sort_rows before (where_rows p l)) e)) in
            e ∙ sym (fails (Has-All (λ q. p q ≡ true → (key q == key x) ≡ false) x l absent there))
      ]
    where
      fails : (p x ≡ true → (key x == key x) ≡ false) → p x ≡ false
      fails k = elim (Bool-cases (p x)) [
        | inl e ↦ let wrong = k e in absurd (ground arith)
        | inr e ↦ e
      ]

  Older-update_rows :
      (n : ℕ) (p : A → Bool) (g : A → A) (l : List A)
      → ((c : A) → key (g c) ≡ key c)
      → All (Older key n) l
      → All (Older key n) (update_rows p g l)
  Older-update_rows n p g [] keep h = tt
  Older-update_rows n p g (x ∷ l) keep h = elim (Bool-cases (p x)) [
    | inl e ↦ rw e ((let same = keep x in omega (arith, h.0)), Older-update_rows n p g l keep h.1)
    | inr e ↦ rw e (h.0, Older-update_rows n p g l keep h.1)
  ]

  pub Keyed-update_rows :
      (n : ℕ) (p : A → Bool) (g : A → A) (l : List A)
      → ((c : A) → key (g c) ≡ key c)
      → Keyed key n l
      → Keyed key n (update_rows p g l)
  Keyed-update_rows n p g l keep k = record {
    distinct = Distinct-update_rows p g l keep k.distinct;
    older = Older-update_rows n p g l keep k.older;
  }
