-- ===== src/Funding/Invariant.antt =====
-- The conservation law of reward funding: an account holds exactly what its reservations can still
-- draw and what its commits still owe. Every operation is a sum of effects on the counters.
use re_loop.Base.{
  ℕ, ◌+◌, ◌-◌, ◌≤◌, ◌≡◌, refl, Option, none, some, List, ℤ, pos, ◌+ℤ◌, int_laws, ◌==◌,
  if◌then◌else◌, All, Bool-cases, inl, inr, find_row,
}
use re_loop.Store.{Account, Reservation, Commit, FundingDb, released, sum_by}

-- What a row contributes to what the account owes.
abbrev pub reservation_share : ℕ → Reservation → ℕ
reservation_share a r = if r.account_id == a then r.remaining else 0

abbrev pub commit_share : ℕ → Commit → ℕ
commit_share a c = if c.account_id == a then c.held - c.paid else 0

-- The admission holds that are left and the obligations that are not paid out yet.
abbrev pub obligation : ℕ → FundingDb → ℕ
obligation a db = sum_by (reservation_share a) db.reservations + sum_by (commit_share a) db.commits

abbrev held_of_row : Option Account → ℤ
held_of_row none = pos 0
held_of_row (some x) = x.held

abbrev pub held_in : ℕ → List Account → ℤ
held_in a l = held_of_row (find_row (λ x. x.id == a) l)

abbrev pub held_of : ℕ → FundingDb → ℤ
held_of a db = held_in a db.accounts

abbrev pub ReleasedEmpty : Reservation → Type 0
ReleasedEmpty r = r.status ≡ released → r.remaining ≡ 0

abbrev pub PaidWithin : Commit → Type 0
PaidWithin c = c.paid ≤ c.held

-- Every account holds what it owes; no commit is paid beyond its obligation; a released
-- reservation holds nothing.
pub record Sound (db : FundingDb) : Type 0 where
  pub conserved : (a : ℕ) → held_of a db ≡ pos (obligation a db)
  pub paid_within : All PaidWithin db.commits
  pub released_empty : All ReleasedEmpty db.reservations

-- The part of a change at account `i` that account `a` sees.
abbrev pub share : ℕ → ℕ → ℤ → ℤ
share i a x = if a == i then x else pos 0

-- A step that moves what account `i` holds by `h` and what it owes by `o`.
pub record Effect (i : ℕ) (h o : ℤ) (db db' : FundingDb) : Type 0 where
  pub holds : (a : ℕ) → held_of a db' ≡ held_of a db +ℤ share i a h
  pub owes : (a : ℕ) → pos (obligation a db') ≡ pos (obligation a db) +ℤ share i a o

share-add : (i a : ℕ) (x y : ℤ) → share i a x +ℤ share i a y ≡ share i a (x +ℤ y)
share-add i a x y = elim (Bool-cases (a == i)) [ inl e ↦ rw e refl | inr e ↦ rw e (omega int_laws) ]

pub Effect-trans :
    {i : ℕ} {h o h' o' : ℤ} {d e f : FundingDb}
    → Effect i h o d e
    → Effect i h' o' e f
    → Effect i (h +ℤ h') (o +ℤ o') d f
Effect-trans {i} {h} {o} {h'} {o'} {d} {e} {f} p q = record {
  holds = λ a. rw (q.holds a, p.holds a, ← share-add i a h h') (omega int_laws);
  owes = λ a. rw (q.owes a, p.owes a, ← share-add i a o o') (omega int_laws);
}

pub Effect-cast :
    {i : ℕ} {h o h' o' : ℤ} {d e : FundingDb}
    → h ≡ h'
    → o ≡ o'
    → Effect i h o d e
    → Effect i h' o' d e
Effect-cast p q f = record { holds = λ a. rw (← p) (f.holds a); owes = λ a. rw (← q) (f.owes a) }

-- A step that moves both alike keeps them equal.
pub Effect-conserved :
    {i : ℕ} {h o : ℤ} {d e : FundingDb}
    → Effect i h o d e
    → h ≡ o
    → ((a : ℕ) → held_of a d ≡ pos (obligation a d))
    → (a : ℕ) → held_of a e ≡ pos (obligation a e)
Effect-conserved p same c a = rw (p.holds a, p.owes a, c a, same)
