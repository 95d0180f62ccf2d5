-- ===== src/Funding/Payouts.antt =====
-- The laws of payouts (`settlePayoutFunding` of lib/reward-funding.ts): the books balance, capacity
-- stays, and a payout is attributed once.
use re_loop.Base.{
  ℕ, ◌+◌, ◌≡◌, refl, true, false, Option, none, some, List, [], ◌∷◌, ℤ, pos, neg, ◌+ℤ◌, ◌-ℤ◌,
  int_laws, parts_of, +ℤ_zero, ◌==◌, arith, Bool-cases, Option-cases, inl, inr, ◌⊎◌, find_row,
  where_rows, ok, >>=-eq-ok, subst, ◌∙◌,
}
use re_loop.Store.{
  Account, FundingDb, FundingEntry, update_row, Distinct-where, All-where, Found-All, Found,
}
use re_loop.Funding.Capacity.{bump_account, find_account, moved, assert_rupiah}
use re_loop.Funding.Payout.{
  Shares, sort_shares, is_payable, add_entry, payout_entry, pay_commits, debit_accounts,
  Attribution, pay_first, settle_payout_funding, is_payout_of, taken,
}
use re_loop.Funding.Bumps.{SameRows, SameRows-refl, SameRows-trans, bump_account-Effect}
use re_loop.Funding.Invariant.{held_of, obligation, share}
use re_loop.Funding.Identity.{WellKeyed-SameRows, commit_id}
use re_loop.Funding.Paying.{share_at, total, total-sort_shares, pay_commits-Paid}
use re_loop.Funding.Linking.{Lawful}

abbrev capacity_of_row : Option Account → ℤ
capacity_of_row none = pos 0
capacity_of_row (some x) = x.confirmed -ℤ x.held

abbrev capacity_in : ℕ → List Account → ℤ
capacity_in a l = capacity_of_row (find_row (λ x. x.id == a) l)

-- What an account can still admit: its confirmed cash less what it holds.
abbrev pub capacity_of : ℕ → FundingDb → ℤ
capacity_of a db = capacity_in a db.accounts

capacity_kept : (c h x : ℤ) → (c +ℤ x) -ℤ (h +ℤ x) ≡ c -ℤ h
capacity_kept c h x = omega int_laws

capacity_in-moved :
    (i a : ℕ) (x : ℤ) (l : List Account)
    → capacity_in a (update_row (λ y. y.id == i) (moved x x) l) ≡ capacity_in a l
capacity_in-moved i a x [] = refl
capacity_in-moved i a x (y ∷ l) =
    ground (arith, capacity_kept y.confirmed y.held x, capacity_in-moved i a x l)

bump_account-capacity :
    (i a : ℕ) (x : ℤ) (db db' : FundingDb)
    → bump_account i x x db ≡ ok db'
    → capacity_of a db' ≡ capacity_of a db
unfolding bump_account
bump_account-capacity i a x db db' e = elim (Option-cases (find_account i db)) [
  | inl absent ↦ absurd (ground arith)
  | inr (y, found) ↦ ground (arith, capacity_in-moved i a x db.accounts)
]

-- Debiting the shares takes them from what the accounts hold, and leaves every capacity.
pub record Debited (l : Shares) (db db' : FundingDb) : Type 0 where
  pub rows : SameRows db db'
  pub takes : (a : ℕ) → held_of a db' +ℤ pos (total a l) ≡ held_of a db
  pub keeps : (a : ℕ) → capacity_of a db' ≡ capacity_of a db

debit_one :
    (a account n rest : ℕ) (before between after : ℤ)
    → between ≡ before +ℤ share account a (neg (pos n))
    → after +ℤ pos rest ≡ between
    → after +ℤ pos (share_at a (account, n) + rest) ≡ before
debit_one a account n rest before between after one others = elim (Bool-cases (a == account)) [
  | inl same ↦
      let flip : (account == a) ≡ true = ground arith in
      let p = parts_of _ _ (rw same at one) in
      let q = parts_of _ _ others in rw flip (omega int_laws)
  | inr other ↦
      let flip : (account == a) ≡ false = ground arith in
      let p = parts_of _ _ (rw other at one) in
      let q = parts_of _ _ others in rw flip (omega int_laws)
]

debit_accounts-Debited :
    (redemption : ℕ) (actor : Option ℕ) (l : Shares) (db db' : FundingDb)
    → debit_accounts redemption actor l db ≡ ok db'
    → Debited l db db'
unfolding debit_accounts
debit_accounts-Debited redemption actor [] db db' e =
    let same : db ≡ db' = ground arith in
    subst (Debited [] db) same
      (record { rows = SameRows-refl db; takes = λ a. +ℤ_zero (held_of a db); keeps = λ a. refl })
debit_accounts-Debited redemption actor (x ∷ l) db db' e =
    let (debited, h, g) = >>=-eq-ok (bump_account x.0 (neg (pos x.1)) (neg (pos x.1)) db) _ e in
    let (rows, one) = bump_account-Effect _ _ _ db debited h in
    let next = add_entry (payout_entry redemption actor x) debited in
    let others = debit_accounts-Debited redemption actor l next db' g in
    record {
      rows = SameRows-trans rows (record {
        same_reservations = others.rows.same_reservations;
        same_commits = others.rows.same_commits;
        same_releases = others.rows.same_releases;
        same_next_id = others.rows.same_next_id;
      });
      takes = λ a. debit_one a x.0 x.1 (total a l) _ _ _ (one.holds a) (others.takes a);
      keeps = λ a. others.keeps a ∙ bump_account-capacity x.0 a (neg (pos x.1)) db debited h;
    }

pub pay_first-parts :
    (redemption user gross : ℕ) (actor : Option ℕ) (db : FundingDb) {x : Attribution}
    {db' : FundingDb}
    → pay_first redemption user gross actor db ≡ ok (x, db')
    → let after = pay_commits (where_rows (is_payable user) db.commits) gross [] db in
      Debited (sort_shares after.1) after.2 db'
      × (x.attributed ≡ pos gross -ℤ pos after.0)
      × (x.legacy ≡ pos after.0)
unfolding pay_first
pay_first-parts redemption user gross actor db {x} {db'} e =
    let after = pay_commits (where_rows (is_payable user) db.commits) gross [] db in
    let (debited, h, g) =
      >>=-eq-ok (debit_accounts redemption actor (sort_shares after.1) after.2) _ e in
    let same : debited ≡ db' = cc g in
    let first : record { attributed = pos gross -ℤ pos after.0; legacy = pos after.0 } ≡ x = cc g in
    (
      subst (Debited (sort_shares after.1) after.2) same
          (debit_accounts-Debited redemption actor _ after.2 debited h),
      cc first,
      cc first,
    )

pub rows_cases :
    (l : List FundingEntry)
    → (l ≡ []) ⊎ ((e : FundingEntry) × (more : List FundingEntry) × (l ≡ e ∷ more))
rows_cases [] = inl refl
rows_cases (e ∷ l) = inr (e, l, refl)

balance_after :
    (before after taken rest taken' : ℕ) (held : ℤ)
    → held +ℤ pos taken' ≡ pos before
    → after + taken ≡ before + 0
    → taken' ≡ taken
    → held ≡ pos after
balance_after before after taken rest taken' held h turned same =
    let p = parts_of _ _ h in omega int_laws

pay_first-Lawful :
    (redemption user gross : ℕ) (actor : Option ℕ) (db : FundingDb) {x : Attribution}
    {db' : FundingDb}
    → Lawful db
    → pay_first redemption user gross actor db ≡ ok (x, db')
    → Lawful db'
pay_first-Lawful redemption user gross actor db {x} {db'} l e =
    let cs = where_rows (is_payable user) db.commits in
    let distinct = Distinct-where commit_id (is_payable user) db.commits l.keyed.commits.distinct in
    let found =
      All-where (Found commit_id db.commits) (is_payable user) db.commits
        (Found-All commit_id db.commits l.keyed.commits.distinct) in
    let paid = pay_commits-Paid cs gross [] db distinct found in
    let (debited, _, _) = pay_first-parts redemption user gross actor db e in
    record {
      keyed = WellKeyed-SameRows debited.rows (paid.keyed l.keyed);
      sound = record {
        conserved = λ a.
            rw (debited.rows.same_reservations, debited.rows.same_commits)
              (balance_after (obligation a db) _ _ 0 _ (held_of a db')
                (debited.takes a ∙ rw paid.same_accounts (l.sound.conserved a)) (paid.turned a)
                (total-sort_shares a _));
        paid_within = rw debited.rows.same_commits (paid.within l.sound.paid_within);
        released_empty =
            rw (debited.rows.same_reservations, paid.same_reservations) l.sound.released_empty;
      };
    }

-- A payout keeps the books.
pub payout-Lawful :
    (redemption user gross : ℕ) (actor : Option ℕ) (db : FundingDb) {x : Attribution}
    {db' : FundingDb}
    → Lawful db
    → settle_payout_funding redemption user gross actor db ≡ ok (x, db')
    → Lawful db'
unfolding settle_payout_funding
payout-Lawful redemption user gross actor db {x} {db'} l e =
    let (_, _, e1) = >>=-eq-ok (assert_rupiah 1 gross) _ e in
    elim (rows_cases (where_rows (is_payout_of redemption) db.entries)) [
      | inl new ↦ pay_first-Lawful redemption user gross actor db l (rw new at e1)
      | inr (entry, more, recorded) ↦ subst Lawful (cc (rw recorded at e1)) l
    ]
