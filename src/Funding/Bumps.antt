-- ===== src/Funding/Bumps.antt =====
-- The effect of each write on what an account holds and owes.
use re_loop.Base.{
  ◌∙◌, refl, ◌-◌, parts_of, ◌++◌, int_laws, false, true, Bool-cases, if◌then◌else◌, ◌+◌, pos, ℕ,
  ◌≡◌, Option, none, some, List, [], ◌∷◌, ℤ, ◌+ℤ◌, +ℤ_zero, ◌==◌, arith, Option-cases, inl, inr,
  find_row, ok,
}
use re_loop.Store.{
  sum_by, sum_by-append, sum_by-update_row, Commit, Reservation, Account, FundingDb, update_row,
}
use re_loop.Funding.Capacity.{find_account, moved, bump_account, bump_campaign}
use re_loop.Funding.Reserve.{find_reservation, set_reservation}
use native.Mathlib.Nat.{add_comm}
use re_loop.Funding.Commit.{set_commit}
use re_loop.Funding.Invariant.{
  obligation, commit_share, reservation_share, Effect, held_of, held_in, share,
}

-- The counters of an account moved, or those of a campaign; no other table did.
pub record SameRows (db db' : FundingDb) : Type 0 where
  pub same_reservations : db'.reservations ≡ db.reservations
  pub same_commits : db'.commits ≡ db.commits
  pub same_releases : db'.releases ≡ db.releases
  pub same_next_id : db'.next_id ≡ db.next_id

pub SameRows-refl : (db : FundingDb) → SameRows db db
SameRows-refl db = record {
  same_reservations = refl;
  same_commits = refl;
  same_releases = refl;
  same_next_id = refl;
}

pub SameRows-trans : {d e f : FundingDb} → SameRows d e → SameRows e f → SameRows d f
SameRows-trans p q = record {
  same_reservations = q.same_reservations ∙ p.same_reservations;
  same_commits = q.same_commits ∙ p.same_commits;
  same_releases = q.same_releases ∙ p.same_releases;
  same_next_id = q.same_next_id ∙ p.same_next_id;
}

held_in-moved :
    (i a : ℕ) (c h : ℤ) (l : List Account) (x : Account)
    → find_row (λ y. y.id == i) l ≡ some x
    → held_in a (update_row (λ y. y.id == i) (moved c h) l) ≡ held_in a l +ℤ share i a h
held_in-moved i a c h [] x e = ground arith
held_in-moved i a c h (y ∷ l) x e =
    ground (arith, +ℤ_zero (held_in a (y ∷ l)), +ℤ_zero y.held, held_in-moved i a c h l x)

bump_account-SameRows :
    (i : ℕ) (c h : ℤ) (db db' : FundingDb) → bump_account i c h db ≡ ok db' → SameRows db db'
unfolding bump_account
bump_account-SameRows i c h db db' e = ground arith

bump_account-holds :
    (i a : ℕ) (c h : ℤ) (db db' : FundingDb)
    → bump_account i c h db ≡ ok db'
    → held_of a db' ≡ held_of a db +ℤ share i a h
unfolding bump_account
bump_account-holds i a c h db db' e = elim (Option-cases (find_account i db)) [
  | inl absent ↦ absurd (ground arith)
  | inr (x, found) ↦ ground (arith, held_in-moved i a c h db.accounts x found)
]

bump_campaign-SameRows :
    (c : Option ℕ) (h s : ℤ) (db db' : FundingDb)
    → bump_campaign c h s db ≡ ok db'
    → SameRows db db' × (db'.accounts ≡ db.accounts)
unfolding bump_campaign
bump_campaign-SameRows none h s db db' e = ground arith
bump_campaign-SameRows (some i) h s db db' e = ground arith

share-zero : (i a : ℕ) → share i a (pos 0) ≡ pos 0
share-zero i a = ground arith

-- A step that leaves rows and accounts alone has no effect.
pub SameRows-Effect :
    {i : ℕ} {db db' : FundingDb}
    → SameRows db db'
    → db'.accounts ≡ db.accounts
    → Effect i (pos 0) (pos 0) db db'
SameRows-Effect {i} {db} {db'} rows accounts = record {
  holds = λ a. rw (accounts, share-zero i a, +ℤ_zero);
  owes = λ a. rw (rows.same_reservations, rows.same_commits, share-zero i a, +ℤ_zero);
}

pub bump_account-Effect :
    (i : ℕ) (c h : ℤ) (db db' : FundingDb)
    → bump_account i c h db ≡ ok db'
    → SameRows db db' × Effect i h (pos 0) db db'
bump_account-Effect i c h db db' e =
    let rows = bump_account-SameRows i c h db db' e in
    (
      rows,
      record {
        holds = λ a. bump_account-holds i a c h db db' e;
        owes = λ a. rw (rows.same_reservations, rows.same_commits, share-zero i a, +ℤ_zero);
      },
    )

pub bump_campaign-Effect :
    (i : ℕ) (c : Option ℕ) (h s : ℤ) (db db' : FundingDb)
    → bump_campaign c h s db ≡ ok db'
    → SameRows db db' × Effect i (pos 0) (pos 0) db db'
bump_campaign-Effect i c h s db db' e =
    let (rows, accounts) = bump_campaign-SameRows c h s db db' e in
    (rows, SameRows-Effect rows accounts)

share_of_pos :
    (i a n m : ℕ) (o : ℤ)
    → pos n ≡ pos m +ℤ o
    → pos (if i == a then n else 0) ≡ pos (if i == a then m else 0) +ℤ share i a o
share_of_pos i a n m o e = elim (Bool-cases (i == a)) [
  | inl same ↦ let flip : (a == i) ≡ true = ground arith in rw (same, flip) e
  | inr other ↦ let flip : (a == i) ≡ false = ground arith in rw (other, flip) (omega int_laws)
]

-- One summand of a total moved by `o`, so the total did.
total_moves :
    (new old total_new total rest : ℕ) (o : ℤ)
    → total_new + old ≡ total + new
    → pos new ≡ pos old +ℤ o
    → pos (total_new + rest) ≡ pos (total + rest) +ℤ o
total_moves new old total_new total rest o sums e =
    omega (int_laws, parts_of (pos new) (pos old +ℤ o) e)

-- A change of one reservation's remaining ceiling is a change of what its account owes.
pub set_reservation-Effect :
    (id : ℕ) (g : Reservation → Reservation) (o : ℤ) (db : FundingDb) (r : Reservation)
    → find_reservation id db ≡ some r
    → (g r).account_id ≡ r.account_id
    → pos ((g r).remaining) ≡ pos r.remaining +ℤ o
    → Effect r.account_id (pos 0) o db (set_reservation id g db)
set_reservation-Effect id g o db r found same change = record {
  holds = λ a. rw (share-zero r.account_id a, +ℤ_zero);
  owes = λ a.
      total_moves (reservation_share a (g r)) (reservation_share a r) _ _ _ _
        (sum_by-update_row (reservation_share a) _ g db.reservations r found)
        (rw same (share_of_pos r.account_id a (g r).remaining r.remaining o change));
}

-- The same for what a commit still owes.
pub set_commit-Effect :
    (id : ℕ) (g : Commit → Commit) (o : ℤ) (db : FundingDb) (c : Commit)
    → find_row (λ x. x.id == id) db.commits ≡ some c
    → (g c).account_id ≡ c.account_id
    → pos ((g c).held - (g c).paid) ≡ pos (c.held - c.paid) +ℤ o
    → Effect c.account_id (pos 0) o db (set_commit id g db)
set_commit-Effect id g o db c found same change = record {
  holds = λ a. rw (share-zero c.account_id a, +ℤ_zero);
  owes = λ a.
      rw
        (
          add_comm _ (sum_by (commit_share a) (set_commit id g db).commits),
          add_comm (sum_by (reservation_share a) db.reservations)
              (sum_by (commit_share a) db.commits),
        )
        (total_moves (commit_share a (g c)) (commit_share a c) _ _ _ _
          (sum_by-update_row (commit_share a) _ g db.commits c found)
          (rw same (share_of_pos c.account_id a _ _ o change)));
}

grown : (i a n k : ℕ) → pos (k + (if i == a then n else 0)) ≡ pos k +ℤ share i a (pos n)
grown i a n k = elim (Bool-cases (i == a)) [
  | inl same ↦ let flip : (a == i) ≡ true = ground arith in rw (same, flip) (omega int_laws)
  | inr other ↦ let flip : (a == i) ≡ false = ground arith in rw (other, flip) (omega int_laws)
]

-- A new commit owes its whole amount; a new reservation its whole ceiling.
pub add_commit-Effect :
    (db db' : FundingDb) (c : Commit)
    → db'.accounts ≡ db.accounts
    → db'.reservations ≡ db.reservations
    → db'.commits ≡ db.commits ++ c ∷ []
    → Effect c.account_id (pos 0) (pos (c.held - c.paid)) db db'
add_commit-Effect db db' c accounts reservations commits = record {
  holds = λ a. rw (accounts, share-zero c.account_id a, +ℤ_zero);
  owes = λ a.
      rw (reservations, commits, sum_by-append (commit_share a) db.commits (c ∷ []))
        (rw (← grown c.account_id a (c.held - c.paid) (obligation a db)) (omega int_laws));
}

pub add_reservation-Effect :
    (db db' : FundingDb) (r : Reservation)
    → db'.accounts ≡ db.accounts
    → db'.reservations ≡ db.reservations ++ r ∷ []
    → db'.commits ≡ db.commits
    → Effect r.account_id (pos 0) (pos r.remaining) db db'
add_reservation-Effect db db' r accounts reservations commits = record {
  holds = λ a. rw (accounts, share-zero r.account_id a, +ℤ_zero);
  owes = λ a.
      rw (reservations, commits, sum_by-append (reservation_share a) db.reservations (r ∷ []))
        (rw (← grown r.account_id a r.remaining (obligation a db)) (omega int_laws));
}
