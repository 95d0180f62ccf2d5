-- ===== src/Funding/Coverage.antt =====
-- What an enforced admission does to each account (`reserveRewardBudget` of lib/reward-funding.ts with
-- the switch on), whatever the state of the others.
use re_loop.Base.{
  ltb, ◌==◌, if◌then◌else◌, ==_iff, Bool-cases, Option-cases, find_row, ◌-ℤ◌, pos, ◌≤ℤ◌, ok,
  >>=-eq-ok, ℕ, ◌≡◌, refl, sym, ap, ◌∙◌, subst, ◌⊎◌, inl, inr, true, Option, none, some, List, [],
  ◌∷◌, arith,
}
use re_loop.Store.{Account, FundingDb, Keyed, Reservation, update_row, find-append}
use re_loop.Funding.Capacity.{
  bump_account, lock_funding_account, account_of_organization, empty_account, CapacityCheck,
  check_capacity, assert_rupiah, find_account, set_account, moved,
}
use re_loop.Funding.Reserve.{
  ReserveInput, find_reservation_by_key, reserve_delta, read_campaign, covering, campaign_ref,
  enforce, write_reservation, hold, admit, reserve_reward_budget,
}
use re_loop.Funding.Solvency.{
  account_id, Covered, lock-found, bump_campaign-rows, moved-Covered, room_of,
}

-- Every account that was there is as it was, or its confirmed cash covers what is held.
abbrev pub Kept : FundingDb → FundingDb → Type 0
Kept db db' =
    (k : ℕ) (a : Account)
    → find_account k db ≡ some a
    → (b : Account) × (find_account k db' ≡ some b) × ((b ≡ a) ⊎ Covered b)

find-update :
    (i k : ℕ) (g : Account → Account) (l : List Account) (a : Account)
    → ((x : Account) → (g x).id ≡ x.id)
    → find_row (λ x. x.id == k) l ≡ some a
    → find_row (λ x. x.id == k) (update_row (λ x. x.id == i) g l) ≡ some (if k == i then g a else a)
find-update i k g [] a keep there = absurd (ground arith)
find-update i k g (x ∷ l) a keep there = ground (arith, keep x, find-update i k g l a keep)

lock-Kept : (o : ℕ) (db : FundingDb) → Kept db (lock_funding_account o db).1
unfolding lock_funding_account
lock-Kept o db k a there = elim (Option-cases (account_of_organization o db)) [
  | inr (b, old) ↦ rw (old, lock_funding_account) (a, there, inl refl)
  | inl absent ↦
      rw (absent, lock_funding_account)
        (
          a,
          find-append (λ x. x.id == k) db.accounts (empty_account db.next_id o ∷ []) a there,
          inl refl,
        )
]

bump_account-writes :
    (a : Account) (n : ℕ) (db db' : FundingDb)
    → bump_account a.id (pos 0) (pos n) db ≡ ok db'
    → set_account a.id (moved (pos 0) (pos n)) db ≡ db'
unfolding bump_account
bump_account-writes a n db db' e = ground arith

hold-Kept :
    (a : Account) (campaign : Option ℕ) (n : ℕ) (db db' : FundingDb)
    → find_account a.id db ≡ some a
    → pos n ≤ℤ a.confirmed -ℤ a.held
    → hold a.id campaign n db ≡ ok db'
    → Kept db db'
unfolding hold
hold-Kept a campaign n db db' found room e k b there = elim (Bool-cases (ltb 0 n)) [
  | inr nothing ↦
      let same : db ≡ db' = ground arith in
      subst (λ d. (c : Account) × (find_account k d ≡ some c) × ((c ≡ b) ⊎ Covered c)) same
        (b, there, inl refl)
  | inl something ↦
      let (held, h, g) = >>=-eq-ok _ _ (rw something at e) in
      let (accounts, _) = bump_campaign-rows _ _ _ held db' g in
      let written = bump_account-writes a n db held h in
      let now = find-update a.id k (moved (pos 0) (pos n)) db.accounts b (λ x. refl) there in
      let here : find_account k db' ≡ some (if k == a.id then moved (pos 0) (pos n) b else b) =
        ap (find_row (λ x. x.id == k)) (accounts ∙ sym (ap (λ (d : FundingDb). d.accounts) written))
        ∙ now in
      elim (Bool-cases (k == a.id)) [
        | inr other ↦ (b, rw other at here, inl refl)
        | inl charged ↦
            let one : k ≡ a.id = (==_iff _ _).0 charged in
            let same : b ≡ a = some_inj (sym there ∙ (ap (λ j. find_account j db) one ∙ found)) in
            (
              moved (pos 0) (pos n) b,
              rw charged at here,
              inr (
                  subst (λ x. Covered (moved (pos 0) (pos n) x)) (sym same)
                    (moved-Covered a n room)),
            )
      ]
]
  where
    some_inj : {x y : Account} → some x ≡ some y → x ≡ y
    some_inj q = cc

write-accounts :
    (existing : Option Reservation) (input : ReserveInput) (account : ℕ) (campaign : Option ℕ)
    (delta : ℕ) (s : CapacityCheck) (db : FundingDb)
    → (write_reservation existing input account campaign delta s db).1.accounts ≡ db.accounts
unfolding write_reservation
write-accounts (some r) input account campaign delta s db = refl
write-accounts none input account campaign delta s db = refl

-- Under enforcement an admission leaves each account as it was, or covered by its confirmed cash,
-- whatever the other accounts, the campaign, the ceiling and the state of the key; so an account that
-- was covered stays covered. The identifiers of accounts are distinct and below the next one.
pub reserve_keeps_covered :
    (input : ReserveInput) (db : FundingDb) {i : ℕ} {db' : FundingDb} (k : ℕ) (a : Account)
    → Keyed account_id db.next_id db.accounts
    → reserve_reward_budget true input db ≡ ok (i, db')
    → find_account k db ≡ some a
    → (b : Account) × (find_account k db' ≡ some b) × ((b ≡ a) ⊎ Covered b)
unfolding reserve_reward_budget admit
reserve_keeps_covered input db {i} {db'} k a keyed e there =
    let account = (lock_funding_account input.organization_id db).0 in
    let locked = (lock_funding_account input.organization_id db).1 in
    let own = lock-found input.organization_id db keyed in
    let (b, present, first) = lock-Kept input.organization_id db k a there in
    let existing = find_reservation_by_key input.business_key locked in
    let delta = reserve_delta existing input.ceiling locked in
    let (_, _, e1) = >>=-eq-ok (assert_rupiah 0 input.ceiling) _ e in
    let (campaign, _, e2) = >>=-eq-ok (read_campaign input.campaign_id locked) _ e1 in
    elim (Option-cases (covering existing input.ceiling)) [
      | inr (old, covered) ↦
          let same : locked ≡ db' = ground arith in
          subst (λ d. (c : Account) × (find_account k d ≡ some c) × ((c ≡ a) ⊎ Covered c)) same
            (b, present, first)
      | inl new ↦
          let e5 : admit true input account campaign existing locked ≡ ok (i, db') = ground arith in
          let check = check_capacity account campaign delta in
          let (_, allowed, e6) = >>=-eq-ok (enforce true input.ceiling campaign check) _ e5 in
          let (held, h, g) =
            >>=-eq-ok (hold account.id (campaign_ref campaign) delta locked) _ e6 in
          let room = room_of account campaign input.ceiling delta allowed in
          let (c, after, second) =
            hold-Kept account (campaign_ref campaign) delta locked held own room h k b present in
          let same : (write_reservation existing input account.id (campaign_ref campaign) delta
                check held).1
              ≡ db' =
            cc g in
          let accounts : db'.accounts ≡ held.accounts =
            ap (λ (d : FundingDb). d.accounts) (sym same)
            ∙ write-accounts existing input account.id (campaign_ref campaign) delta check held in
          (c, ap (find_row (λ x. x.id == k)) accounts ∙ after, either first second)
    ]
  where
    either : {a b c : Account} → (b ≡ a) ⊎ Covered b → (c ≡ b) ⊎ Covered c → (c ≡ a) ⊎ Covered c
    either first (inr covered) = inr covered
    either (inl same) (inl still) = inl (still ∙ same)
    either (inr covered) (inl still) = inr (subst Covered (sym still) covered)
