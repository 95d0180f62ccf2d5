-- ===== src/Funding/Paying.antt =====
-- The loop of `settlePayoutFunding` over the commits (lib/reward-funding.ts): what it pays leaves the
-- obligations, account by account.
use re_loop.Base.{
  ℕ, ◌+◌, ◌-◌, ◌≤◌, ◌≡◌, refl, List, [], ◌∷◌, ◌==◌, min, if◌then◌else◌, All, arith, Bool-cases, inl,
  inr, ◌∙◌,
}
use re_loop.Store.{
  Commit, FundingDb, sum_by, sum_by-update_row, update_row-All, Distinct, Found, Found-others,
}
use re_loop.Funding.Commit.{set_commit}
use re_loop.Funding.Payout.{
  Shares, add_share, insert_share, sort_shares, unpaid, paid_more, pay_commits,
}
use re_loop.Funding.Invariant.{obligation, commit_share, PaidWithin}
use re_loop.Funding.Identity.{WellKeyed, WellKeyed-set_commit, commit_id}

abbrev pub share_at : ℕ → ℕ × ℕ → ℕ
share_at a x = if x.0 == a then x.1 else 0

-- What the shares take from an account.
abbrev pub total : ℕ → Shares → ℕ
total a l = sum_by (share_at a) l

total-add_share :
    (a b n : ℕ) (l : Shares) → total a (add_share b n l) ≡ total a l + share_at a (b, n)
total-add_share a b n [] = ground arith
total-add_share a b n (x ∷ l) = ground (arith, total-add_share a b n l)

total-insert_share :
    (a : ℕ) (x : ℕ × ℕ) (l : Shares) → total a (insert_share x l) ≡ share_at a x + total a l
total-insert_share a x [] = ground arith
total-insert_share a x (y ∷ l) = ground (arith, total-insert_share a x l)

pub total-sort_shares : (a : ℕ) (l : Shares) → total a (sort_shares l) ≡ total a l
total-sort_shares a [] = refl
total-sort_shares a (x ∷ l) =
    total-insert_share a x (sort_shares l) ∙ rw (total-sort_shares a l) refl

-- What a stretch of the loop does: only commits change, and what they owe turns into shares.
pub record Paid (db db' : FundingDb) (shares shares' : Shares) : Type 0 where
  pub same_accounts : db'.accounts ≡ db.accounts
  pub same_reservations : db'.reservations ≡ db.reservations
  pub keyed : WellKeyed db → WellKeyed db'
  pub within : All PaidWithin db.commits → All PaidWithin db'.commits
  pub turned : (a : ℕ) → obligation a db' + total a shares' ≡ obligation a db + total a shares

Paid-refl : (db : FundingDb) (shares : Shares) → Paid db db shares shares
Paid-refl db shares = record {
  same_accounts = refl;
  same_reservations = refl;
  keyed = λ w. w;
  within = λ w. w;
  turned = λ a. refl;
}

Paid-trans : {d e f : FundingDb} {s t u : Shares} → Paid d e s t → Paid e f t u → Paid d f s u
Paid-trans p q = record {
  same_accounts = q.same_accounts ∙ p.same_accounts;
  same_reservations = q.same_reservations ∙ p.same_reservations;
  keyed = λ w. q.keyed (p.keyed w);
  within = λ w. q.within (p.within w);
  turned = λ a. q.turned a ∙ p.turned a;
}

turned_one :
    (new old sum_new sum rest n all_new all : ℕ)
    → sum_new + old ≡ sum + new
    → new + n ≡ old
    → all_new ≡ all + n
    → rest + sum_new + all_new ≡ rest + sum + all
turned_one new old sum_new sum rest n all_new all sums e more = omega arith

paid_share :
    (a n : ℕ) (c : Commit)
    → n ≤ unpaid c
    → commit_share a (paid_more n c) + share_at a (c.account_id, n) ≡ commit_share a c
paid_share a n c fits = ground arith

Paid-step :
    (c : Commit) (n : ℕ) (shares : Shares) (db : FundingDb)
    → Found commit_id db.commits c
    → n ≤ unpaid c
    → 1 ≤ n
    → Paid db (set_commit c.id (paid_more n) db) shares (add_share c.account_id n shares)
Paid-step c n shares db found fits some_paid = record {
  same_accounts = refl;
  same_reservations = refl;
  keyed = WellKeyed-set_commit c.id (paid_more n) db (λ x. refl) (λ x. refl) (λ x. refl);
  within = λ w. update_row-All PaidWithin _ (paid_more n) db.commits c w found (omega arith);
  turned = λ a.
      turned_one (commit_share a (paid_more n c)) (commit_share a c) _ _ _ _ _ _
        (sum_by-update_row (commit_share a) _ (paid_more n) db.commits c found)
        (paid_share a n c fits) (total-add_share a c.account_id n shares);
}

pub pay_commits-Paid :
    (cs : List Commit) (left : ℕ) (shares : Shares) (db : FundingDb)
    → Distinct commit_id cs
    → All (Found commit_id db.commits) cs
    → Paid db (pay_commits cs left shares db).2 shares (pay_commits cs left shares db).1
unfolding pay_commits
pay_commits-Paid [] left shares db d found = Paid-refl db shares
pay_commits-Paid (c ∷ rest) left shares db d found = elim (Bool-cases (left == 0)) [
  | inl done ↦ rw (done, pay_commits) (Paid-refl db shares)
  | inr more ↦ elim (Bool-cases (min left (unpaid c) == 0)) [
    | inl nothing ↦
        rw (more, nothing, pay_commits) (pay_commits-Paid rest left shares db d.1 found.1)
    | inr something ↦
        let n = min left (unpaid c) in
        let fits : n ≤ unpaid c = ground arith in
        let one : 1 ≤ n = ground arith in
        rw (more, something, pay_commits)
          (Paid-trans (Paid-step c n shares db found.0 fits one) (
            pay_commits-Paid rest (left - n) (add_share c.account_id n shares)
              (set_commit c.id (paid_more n) db) d.1
              (Found-others commit_id c (paid_more n) db.commits rest (λ x. refl) d.0 found.1)))
  ]
]

left_after : (left own others : ℕ) → left - min left own - others ≡ left - (own + others)
left_after left own others = ground arith

-- What is left is what the unpaid obligations do not reach.
pub pay_commits-left :
    (cs : List Commit) (left : ℕ) (shares : Shares) (db : FundingDb)
    → (pay_commits cs left shares db).0 ≡ left - sum_by unpaid cs
unfolding pay_commits
pay_commits-left [] left shares db = omega arith
pay_commits-left (c ∷ rest) left shares db = elim (Bool-cases (left == 0)) [
  | inl done ↦ rw (done, pay_commits) (ground arith)
  | inr more ↦ elim (Bool-cases (min left (unpaid c) == 0)) [
    | inl nothing ↦
        rw (more, nothing, pay_commits) (ground (arith, pay_commits-left rest left shares db))
    | inr something ↦
        rw (more, something, pay_commits)
          (pay_commits-left rest (left - min left (unpaid c)) _ _ ∙ left_after left (unpaid c) _)
  ]
]

-- The shares and what is left always make up the gross.
abbrev pub paid_out : Shares → ℕ
paid_out l = sum_by (λ x. x.1) l

paid_out-add_share : (b n : ℕ) (l : Shares) → paid_out (add_share b n l) ≡ paid_out l + n
paid_out-add_share b n [] = ground arith
paid_out-add_share b n (x ∷ l) = ground (arith, paid_out-add_share b n l)

paid_out-insert_share : (x : ℕ × ℕ) (l : Shares) → paid_out (insert_share x l) ≡ x.1 + paid_out l
paid_out-insert_share x [] = ground arith
paid_out-insert_share x (y ∷ l) = ground (arith, paid_out-insert_share x l)

pub paid_out-sort_shares : (l : Shares) → paid_out (sort_shares l) ≡ paid_out l
paid_out-sort_shares [] = refl
paid_out-sort_shares (x ∷ l) =
    paid_out-insert_share x (sort_shares l) ∙ rw (paid_out-sort_shares l) refl

moved_over :
    (left n shares rest shares' : ℕ)
    → n ≤ left
    → rest ≡ left - n + shares'
    → shares' ≡ shares + n
    → rest ≡ left + shares
moved_over left n shares rest shares' fits e same = omega arith

pub pay_commits-paid_out :
    (cs : List Commit) (left : ℕ) (shares : Shares) (db : FundingDb)
    → (pay_commits cs left shares db).0 + paid_out (pay_commits cs left shares db).1
      ≡ left + paid_out shares
unfolding pay_commits
pay_commits-paid_out [] left shares db = refl
pay_commits-paid_out (c ∷ rest) left shares db = elim (Bool-cases (left == 0)) [
  | inl done ↦ rw (done, pay_commits) refl
  | inr more ↦ elim (Bool-cases (min left (unpaid c) == 0)) [
    | inl nothing ↦ rw (more, nothing, pay_commits) (pay_commits-paid_out rest left shares db)
    | inr something ↦
        let n = min left (unpaid c) in
        let fits : n ≤ left = ground arith in
        rw (more, something, pay_commits)
          (moved_over left n (paid_out shares) _ _ fits (pay_commits-paid_out rest (left - n) _ _)
            (paid_out-add_share c.account_id n shares))
  ]
]
