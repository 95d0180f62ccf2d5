-- ===== src/Store/Ids.antt =====
-- Tables whose rows have distinct identifiers below the next one to be given out.
use re_loop.Base.{
  where_rows, ℕ, ◌+◌, ◌≤◌, ◌<◌, ◌≡◌, ◌≢◌, Bool, true, none, some, List, [], ◌∷◌, ◌++◌, ◌==◌, All,
  arith, Bool-cases, inl, inr, find_row, sym, ◌∙◌, ◌⊎◌,
}
use re_loop.Store.Sums.{update_row, find_row-All, append-All}

pub All-map {ℓ} :
    {A : Type ℓ} (P Q : A → Type 0) (l : List A) → ((a : A) → P a → Q a) → All P l → All Q l
All-map P Q [] f h = tt
All-map P Q (x ∷ l) f h = (f x h.0, All-map P Q l f h.1)

pub find-append {ℓ} :
    {A : Type ℓ} (p : A → Bool) (xs ys : List A) (r : A)
    → find_row p xs ≡ some r
    → find_row p (xs ++ ys) ≡ some r
find-append p [] ys r e = ground arith
find-append p (x ∷ xs) ys r e = ground (arith, find-append p xs ys r)

-- A row that is not found yet is found once it is added.
pub find-append_new {ℓ} :
    {A : Type ℓ} (p : A → Bool) (xs : List A) (y : A)
    → find_row p xs ≡ none
    → p y ≡ true
    → find_row p (xs ++ y ∷ []) ≡ some y
find-append_new p [] y e t = ground arith
find-append_new p (x ∷ xs) y e t = ground (arith, find-append_new p xs y)

pub update-All {ℓ κ} :
    {A : Type ℓ} (P : A → Type κ) (p : A → Bool) (g : A → A) (l : List A)
    → ((c : A) → P c → P (g c))
    → All P l
    → All P (update_row p g l)
update-All P p g [] k h = tt
update-All P p g (x ∷ l) k h = elim (Bool-cases (p x)) [
  | inl e ↦ rw e (k x h.0, h.1)
  | inr e ↦ rw e (h.0, update-All P p g l k h.1)
]

module _ {A : Type 0} (key : A → ℕ) where
  abbrev pub Apart : A → A → Type 0
  Apart c d = key c ≢ key d

  abbrev pub Distinct : List A → Type 0
  Distinct [] = Unit
  Distinct (c ∷ l) = All (Apart c) l × Distinct l

  abbrev pub Older : ℕ → A → Type 0
  Older n c = key c < n

  -- A row that some test finds is found by its own identifier.
  pub found_by_key :
      (p : A → Bool) (l : List A) (c : A)
      → Distinct l
      → find_row p l ≡ some c
      → find_row (λ x. key x == key c) l ≡ some c
  found_by_key p [] c d e = ground arith
  found_by_key p (x ∷ l) c d e = elim (Bool-cases (p x)) [
    | inl here ↦ ground arith
    | inr there ↦
        let later : find_row p l ≡ some c = ground arith in
        ground (arith, find_row-All (Apart x) p l c d.0 later, found_by_key p l c d.1 later)
  ]

  pub Distinct-append :
      (l : List A) (c : A) (n : ℕ)
      → Distinct l
      → All (Older n) l
      → key c ≡ n
      → Distinct (l ++ c ∷ [])
  Distinct-append [] c n d o e = (tt, tt)
  Distinct-append (x ∷ l) c n d o e =
      (append-All (Apart x) l (c ∷ []) d.0 (λ q. omega arith, tt), Distinct-append l c n d.1 o.1 e)

  pub Older-mono : (l : List A) (n m : ℕ) → n ≤ m → All (Older n) l → All (Older m) l
  Older-mono l n m h o = All-map (Older n) (Older m) l (λ c k. omega arith) o

  pub Distinct-update :
      (p : A → Bool) (g : A → A) (l : List A)
      → ((c : A) → key (g c) ≡ key c)
      → Distinct l
      → Distinct (update_row p g l)
  Distinct-update p g [] k d = tt
  Distinct-update p g (x ∷ l) k d = elim (Bool-cases (p x)) [
    | inl e ↦ rw e (All-map (Apart x) (Apart (g x)) l (λ c h q. h (sym (k x) ∙ q)) d.0, d.1)
    | inr e ↦
        rw e (update-All (Apart x) p g l (λ c h q. h (q ∙ k c)) d.0, Distinct-update p g l k d.1)
  ]

  -- A write that keeps identifiers keeps who is found by one.
  pub find-update :
      (i j : ℕ) (g : A → A) (l : List A) (r : A)
      → ((x : A) → key (g x) ≡ key x)
      → find_row (λ x. key x == j) l ≡ some r
      → (find_row (λ x. key x == j) (update_row (λ x. key x == i) g l) ≡ some r)
        ⊎ (find_row (λ x. key x == j) (update_row (λ x. key x == i) g l) ≡ some (g r))
  find-update i j g [] r keep e = ground arith
  find-update i j g (x ∷ l) r keep e = ground (arith, keep x, find-update i j g l r keep)

-- The rows of a table, as the writes keep them.
pub record Keyed {A : Type 0} (key : A → ℕ) (next : ℕ) (l : List A) : Type 0 where
  pub distinct : Distinct key l
  pub older : All (Older key next) l

pub Keyed-append :
    {A : Type 0} (key : A → ℕ) (n : ℕ) (l : List A) (c : A)
    → Keyed key n l
    → key c ≡ n
    → Keyed key (n + 1) (l ++ c ∷ [])
Keyed-append key n l c k e = record {
  distinct = Distinct-append key l c n k.distinct k.older e;
  older =
      append-All (Older key (n + 1)) l (c ∷ []) (Older-mono key l n (n + 1) (omega arith) k.older)
        (omega arith, tt);
}

pub Keyed-update :
    {A : Type 0} (key : A → ℕ) (n : ℕ) (p : A → Bool) (g : A → A) (l : List A)
    → ((c : A) → key (g c) ≡ key c)
    → Keyed key n l
    → Keyed key n (update_row p g l)
Keyed-update key n p g l keep k = record {
  distinct = Distinct-update key p g l keep k.distinct;
  older = update-All (Older key n) p g l (λ c h. rw (keep c) h) k.older;
}

pub Keyed-later :
    {A : Type 0} (key : A → ℕ) (n m : ℕ) (l : List A) → n ≤ m → Keyed key n l → Keyed key m l
Keyed-later key n m l h k = record { distinct = k.distinct; older = Older-mono key l n m h k.older }

pub All-where {ℓ} :
    {A : Type ℓ} (P : A → Type 0) (p : A → Bool) (l : List A) → All P l → All P (where_rows p l)
All-where P p [] h = tt
All-where P p (x ∷ l) h = elim (Bool-cases (p x)) [
  | inl e ↦ rw e (h.0, All-where P p l h.1)
  | inr e ↦ rw e (All-where P p l h.1)
]

module _ {A : Type 0} (key : A → ℕ) where
  pub Distinct-where : (p : A → Bool) (l : List A) → Distinct key l → Distinct key (where_rows p l)
  Distinct-where p [] d = tt
  Distinct-where p (x ∷ l) d = elim (Bool-cases (p x)) [
    | inl e ↦ rw e (All-where (Apart key x) p l d.0, Distinct-where p l d.1)
    | inr e ↦ rw e (Distinct-where p l d.1)
  ]

  -- The row is what its identifier finds.
  abbrev pub Found : List A → A → Type 0
  Found l c = find_row (λ x. key x == key c) l ≡ some c

  Found-later :
      (x : A) (l rest : List A)
      → All (Apart key x) rest
      → All (Found l) rest
      → All (Found (x ∷ l)) rest
  Found-later x l [] apart h = tt
  Found-later x l (c ∷ rest) apart h =
      (ground (arith, apart.0, h.0), Found-later x l rest apart.1 h.1)

  pub Found-All : (l : List A) → Distinct key l → All (Found l) l
  Found-All [] d = tt
  Found-All (x ∷ l) d = (ground arith, Found-later x l l d.0 (Found-All l d.1))

  find-Found :
      (i : ℕ) (g : A → A) (l : List A) (c : A)
      → ((x : A) → key (g x) ≡ key x)
      → i ≢ key c
      → Found l c
      → Found (update_row (λ x. key x == i) g l) c
  find-Found i g [] c keep other h = h
  find-Found i g (x ∷ l) c keep other h = ground (arith, keep x, find-Found i g l c keep other)

  -- A write to one row leaves the others where they are.
  pub Found-others :
      (d : A) (g : A → A) (l rest : List A)
      → ((x : A) → key (g x) ≡ key x)
      → All (Apart key d) rest
      → All (Found l) rest
      → All (Found (update_row (λ x. key x == key d) g l)) rest
  Found-others d g l [] keep apart h = tt
  Found-others d g l (c ∷ rest) keep apart h =
      (find-Found (key d) g l c keep apart.0 h.0, Found-others d g l rest keep apart.1 h.1)
