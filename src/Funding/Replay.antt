-- ===== src/Funding/Replay.antt =====
-- What a payout attributes, and its replay (`settlePayoutFunding` of lib/reward-funding.ts).
use re_loop.Base.{
  ltb, ℕ, ◌+◌, ◌≤◌, ◌≡◌, ◌≢◌, refl, true, false, Option, List, [], ◌∷◌, ◌++◌, ℤ, pos, neg, ◌+ℤ◌,
  ◌-ℤ◌, int_laws, parts_of, +ℤ_zero, ◌==◌, min, arith, Bool, Bool-cases, inl, inr, where_rows, ok,
  >>=-eq-ok, subst, sym, ◌∙◌,
}
use re_loop.Store.{Commit, FundingDb, FundingEntry, sum_by}
use re_loop.Funding.Capacity.{bump_account, assert_rupiah, max_funding_rupiah}
use re_loop.Funding.Payout.{
  Shares, sort_shares, is_payable, unpaid, add_entry, payout_entry, pay_commits, debit_accounts,
  Attribution, pay_first, settle_payout_funding, is_payout_of, taken,
}
use re_loop.Funding.Paying.{paid_out, paid_out-sort_shares, pay_commits-paid_out}
use re_loop.Funding.Payouts.{pay_first-parts, rows_cases}

-- What the owner's settled obligations still owe.
abbrev pub payable : ℕ → FundingDb → ℕ
payable user db = sum_by unpaid (where_rows (is_payable user) db.commits)

bump_account-entries :
    (i : ℕ) (c h : ℤ) (db db' : FundingDb)
    → bump_account i c h db ≡ ok db'
    → db'.entries ≡ db.entries
unfolding bump_account
bump_account-entries i c h db db' e = ground arith

taken_one : (n : ℕ) → pos 0 -ℤ neg (pos n) ≡ pos 0 +ℤ pos n
taken_one n = omega int_laws

shifted : (a b c : ℤ) → (a +ℤ b) -ℤ c ≡ (a -ℤ c) +ℤ b
shifted a b c = omega int_laws

taken-add :
    (p : FundingEntry → Bool) (l : List FundingEntry) (e : FundingEntry) (n : ℕ)
    → p e ≡ true
    → e.amount ≡ neg (pos n)
    → taken (where_rows p (l ++ e ∷ [])) ≡ taken (where_rows p l) +ℤ pos n
taken-add p [] e n own amount = rw (own, amount) (taken_one n)
taken-add p (x ∷ l) e n own amount = elim (Bool-cases (p x)) [
  | inl kept ↦
      rw (kept, taken-add p l e n own amount) (shifted (taken (where_rows p l)) (pos n) x.amount)
  | inr left ↦ rw left (taken-add p l e n own amount)
]

gathered :
    (before one all : ℤ) (n rest : ℕ)
    → one ≡ before +ℤ pos n
    → all ≡ one +ℤ pos rest
    → all ≡ before +ℤ pos (n + rest)
gathered before one all n rest p q =
    let p' = parts_of _ _ p in let q' = parts_of _ _ q in omega int_laws

own_entry :
    (redemption : ℕ) (actor : Option ℕ) (x : ℕ × ℕ)
    → is_payout_of redemption (payout_entry redemption actor x) ≡ true
own_entry redemption actor x = ground arith

debit_accounts-taken :
    (redemption : ℕ) (actor : Option ℕ) (l : Shares) (db db' : FundingDb)
    → debit_accounts redemption actor l db ≡ ok db'
    → taken (where_rows (is_payout_of redemption) db'.entries)
      ≡ taken (where_rows (is_payout_of redemption) db.entries) +ℤ pos (paid_out l)
unfolding debit_accounts
debit_accounts-taken redemption actor [] db db' e =
    let same : db ≡ db' = ground arith in
    subst
      (λ d.
        taken (where_rows (is_payout_of redemption) d.entries)
        ≡ taken (where_rows (is_payout_of redemption) db.entries) +ℤ pos 0)
      same (sym (+ℤ_zero _))
debit_accounts-taken redemption actor (x ∷ l) db db' e =
    let (debited, h, g) = >>=-eq-ok (bump_account x.0 (neg (pos x.1)) (neg (pos x.1)) db) _ e in
    let entry = payout_entry redemption actor x in
    let one : taken (where_rows (is_payout_of redemption) (debited.entries ++ entry ∷ []))
        ≡ taken (where_rows (is_payout_of redemption) db.entries) +ℤ pos x.1 =
      rw (bump_account-entries _ _ _ db debited h) (
        taken-add (is_payout_of redemption) db.entries entry x.1 (own_entry redemption actor x)
          refl) in
    gathered _ _ _ x.1 (paid_out l) one
      (debit_accounts-taken redemption actor l (add_entry entry debited) db' g)

pay_commits-entries :
    (cs : List Commit) (left : ℕ) (shares : Shares) (db : FundingDb)
    → (pay_commits cs left shares db).2.entries ≡ db.entries
unfolding pay_commits
pay_commits-entries [] left shares db = refl
pay_commits-entries (c ∷ rest) left shares db = elim (Bool-cases (left == 0)) [
  | inl done ↦ rw (done, pay_commits) refl
  | inr more ↦ elim (Bool-cases (min left (unpaid c) == 0)) [
    | inl nothing ↦ rw (more, nothing, pay_commits) (pay_commits-entries rest left shares db)
    | inr something ↦ rw (more, something, pay_commits) (pay_commits-entries rest _ _ _)
  ]
]

made_up : (gross left out : ℕ) → left + out ≡ gross + 0 → pos 0 +ℤ pos out ≡ pos gross -ℤ pos left
made_up gross left out e = omega int_laws

-- After a first payout its entries record what it attributed, whatever the state of the books.
recorded_amount :
    (redemption user gross : ℕ) (actor : Option ℕ) (db : FundingDb) {x : Attribution}
    {db' : FundingDb}
    → where_rows (is_payout_of redemption) db.entries ≡ []
    → pay_first redemption user gross actor db ≡ ok (x, db')
    → (taken (where_rows (is_payout_of redemption) db'.entries) ≡ x.attributed)
      × (x.legacy ≡ pos gross -ℤ x.attributed)
unfolding pay_first
recorded_amount redemption user gross actor db {x} {db'} new e =
    let cs = where_rows (is_payable user) db.commits in
    let left = (pay_commits cs gross [] db).0 in
    let shares = (pay_commits cs gross [] db).1 in
    let paid = (pay_commits cs gross [] db).2 in
    let (debited, h, g) =
      >>=-eq-ok (debit_accounts redemption actor (sort_shares shares) paid) _ e in
    let (_, attributed, legacy) = pay_first-parts redemption user gross actor db e in
    let same : debited ≡ db' = cc g in
    let out = debit_accounts-taken redemption actor (sort_shares shares) paid debited h in
    let before : taken (where_rows (is_payout_of redemption) paid.entries) ≡ pos 0 =
      rw (pay_commits-entries cs gross [] db, new) refl in
    let sum = pay_commits-paid_out cs gross [] db in
    (
      subst (λ d. taken (where_rows (is_payout_of redemption) d.entries) ≡ x.attributed) same
          (out
            ∙ rw (before, paid_out-sort_shares shares, attributed)
                (made_up gross left (paid_out shares) sum)),
      rw (legacy, attributed) (omega int_laws),
    )

replayed :
    (redemption user gross : ℕ) (actor : Option ℕ) (db : FundingDb) (e : FundingEntry)
    (more : List FundingEntry) (x : Attribution)
    → 1 ≤ gross
    → gross ≤ max_funding_rupiah
    → where_rows (is_payout_of redemption) db.entries ≡ e ∷ more
    → taken (e ∷ more) ≡ x.attributed
    → x.legacy ≡ pos gross -ℤ x.attributed
    → settle_payout_funding redemption user gross actor db ≡ ok (x, db)
unfolding settle_payout_funding assert_rupiah
replayed redemption user gross actor db e more x some_gross fits recorded out legacy =
    let low : ltb gross 1 ≡ false = ground arith in
    let high : ltb max_funding_rupiah gross ≡ false = ground arith in
    rw (low, high, recorded, out, ← legacy) refl

-- A payout that attributed something is attributed once: settling the same redemption again changes
-- nothing and reports the same amounts.
pub payout_again_free :
    (redemption user gross : ℕ) (actor again : Option ℕ) (db : FundingDb) {x : Attribution}
    {db' : FundingDb}
    → where_rows (is_payout_of redemption) db.entries ≡ []
    → x.attributed ≢ pos 0
    → settle_payout_funding redemption user gross actor db ≡ ok (x, db')
    → settle_payout_funding redemption user gross again db' ≡ ok (x, db')
unfolding settle_payout_funding assert_rupiah
payout_again_free redemption user gross actor again db {x} {db'} new some_taken e =
    let (_, range, e1) = >>=-eq-ok (assert_rupiah 1 gross) _ e in
    let first : pay_first redemption user gross actor db ≡ ok (x, db') = rw new at e1 in
    let (out, legacy) = recorded_amount redemption user gross actor db new first in
    let some_gross : 1 ≤ gross = ground arith in
    let fits : gross ≤ max_funding_rupiah = ground arith in
    elim (rows_cases (where_rows (is_payout_of redemption) db'.entries)) [
      | inl nothing ↦ absurd (some_taken (sym out ∙ rw nothing refl))
      | inr (entry, more, recorded) ↦
          replayed redemption user gross again db' entry more x some_gross fits recorded
            (rw recorded at out) legacy
    ]
