-- ===== src/Funding/Solvency.antt =====
-- What enforcement promises (`reserveRewardBudget` of lib/reward-funding.ts with the switch on): no
-- admission takes an account beyond its confirmed cash.
use re_loop.Base.{
  ◌<◌, ℕ, ◌+◌, ◌≡◌, refl, true, false, Option, none, some, List, [], ◌∷◌, ℤ, pos, ◌-ℤ◌, ◌≤ℤ◌,
  int_laws, ltb, ◌==◌, All, arith, Bool-cases, Option-cases, inl, inr, find_row, ok, pos_part,
  neg_part, ltb_ℤ, ◌<◌, >>=-eq-ok, subst,
}
use re_loop.Store.{
  Keyed-later, Account, Campaign, Reservation, FundingDb, Keyed, Keyed-later, Keyed-append,
  Keyed-update, append-All, update_row-All, found_by_key, find-append_new,
}
use re_loop.Funding.Capacity.{
  bump_account, bump_campaign, lock_funding_account, missing, account_of_organization,
  empty_account, CapacityCheck, check_capacity, assert_rupiah, find_account, set_account, moved,
}
use re_loop.Funding.Reserve.{
  ReserveInput, find_reservation_by_key, reserve_delta, read_campaign, covering, campaign_ref,
  enforce, write_reservation, hold, admit, reserve_reward_budget,
}

abbrev pub account_id : Account → ℕ
account_id a = a.id

-- The confirmed cash covers what is held.
abbrev pub Covered : Account → Type 0
Covered a = a.held ≤ℤ a.confirmed

-- Accounts have their own identifiers, and each is covered.
pub record Solvent (db : FundingDb) : Type 0 where
  pub accounts : Keyed account_id db.next_id db.accounts
  pub covered : All Covered db.accounts

-- The locked account is found under its identifier, also when it is new.
pub lock-found :
    (o : ℕ) (db : FundingDb)
    → Keyed account_id db.next_id db.accounts
    → find_account (lock_funding_account o db).0.id (lock_funding_account o db).1
      ≡ some (lock_funding_account o db).0
unfolding lock_funding_account
lock-found o db keyed = elim (Option-cases (account_of_organization o db)) [
  | inr (a, there) ↦
      rw (there, lock_funding_account)
        (found_by_key account_id _ db.accounts a keyed.distinct there)
  | inl absent ↦
      let new = empty_account db.next_id o in
      let accounts = Keyed-append account_id db.next_id db.accounts new keyed refl in
      rw (absent, lock_funding_account)
        (found_by_key account_id (λ x. x.id == db.next_id) _ new accounts.distinct
          (find-append_new _ db.accounts new (not_yet db.next_id db.accounts keyed.older)
            (ground arith)))
]
  where
    not_yet :
        (n : ℕ) (l : List Account) → All (λ x. x.id < n) l → find_row (λ x. x.id == n) l ≡ none
    not_yet n [] h = refl
    not_yet n (x ∷ l) h = ground (arith, h.0, not_yet n l h.1)

locked-Solvent : (o : ℕ) (db : FundingDb) → Solvent db → Solvent (lock_funding_account o db).1
unfolding lock_funding_account
locked-Solvent o db s = elim (Option-cases (account_of_organization o db)) [
  | inr (a, there) ↦ rw (there, lock_funding_account) s
  | inl absent ↦
      let new = empty_account db.next_id o in
      rw (absent, lock_funding_account)
        record {
          accounts = Keyed-append account_id db.next_id db.accounts new s.accounts refl;
          covered = append-All Covered db.accounts (new ∷ []) s.covered (omega arith, tt);
        }
]

pub lock-Solvent :
    (o : ℕ) (db : FundingDb)
    → Solvent db
    → Solvent (lock_funding_account o db).1
      × (find_account (lock_funding_account o db).0.id (lock_funding_account o db).1
          ≡ some (lock_funding_account o db).0)
lock-Solvent o db s = (locked-Solvent o db s, lock-found o db s.accounts)

pub bump_campaign-rows :
    (c : Option ℕ) (h s : ℤ) (db db' : FundingDb)
    → bump_campaign c h s db ≡ ok db'
    → (db'.accounts ≡ db.accounts) × (db'.next_id ≡ db.next_id)
unfolding bump_campaign
bump_campaign-rows none h s db db' e = ground arith
bump_campaign-rows (some i) h s db db' e = ground arith

pub moved-Covered :
    (a : Account) (n : ℕ) → pos n ≤ℤ a.confirmed -ℤ a.held → Covered (moved (pos 0) (pos n) a)
moved-Covered a n room = omega int_laws

bump_account-Solvent :
    (a : Account) (n : ℕ) (db db' : FundingDb)
    → find_account a.id db ≡ some a
    → pos n ≤ℤ a.confirmed -ℤ a.held
    → Solvent db
    → bump_account a.id (pos 0) (pos n) db ≡ ok db'
    → Solvent db'
unfolding bump_account
bump_account-Solvent a n db db' found room s e =
    let same : set_account a.id (moved (pos 0) (pos n)) db ≡ db' = ground arith in
    subst Solvent same (record {
      accounts =
          Keyed-update account_id db.next_id _ (moved (pos 0) (pos n)) db.accounts (λ x. refl)
            s.accounts;
      covered =
          update_row-All Covered _ (moved (pos 0) (pos n)) db.accounts a s.covered found
            (moved-Covered a n room);
    })

hold-Solvent :
    (a : Account) (campaign : Option ℕ) (n : ℕ) (db db' : FundingDb)
    → find_account a.id db ≡ some a
    → pos n ≤ℤ a.confirmed -ℤ a.held
    → Solvent db
    → hold a.id campaign n db ≡ ok db'
    → Solvent db'
unfolding hold
hold-Solvent a campaign n db db' found room s e = elim (Bool-cases (ltb 0 n)) [
  | inr nothing ↦ subst Solvent (ground arith) s
  | inl something ↦
      let (held, h, g) = >>=-eq-ok _ _ (rw something at e) in
      let (accounts, next) = bump_campaign-rows _ _ _ held db' g in
      let kept = bump_account-Solvent a n db held found room s h in
      record { accounts = rw (accounts, next) kept.accounts; covered = rw accounts kept.covered }
]

write-Solvent :
    (existing : Option Reservation) (input : ReserveInput) (account : ℕ) (campaign : Option ℕ)
    (delta : ℕ) (s : CapacityCheck) (db : FundingDb)
    → Solvent db
    → Solvent (write_reservation existing input account campaign delta s db).1
unfolding write_reservation
write-Solvent (some r) input account campaign delta s db k = record {
  accounts = k.accounts;
  covered = k.covered;
}
write-Solvent none input account campaign delta s db k = record {
  accounts = Keyed-later account_id db.next_id _ db.accounts (omega arith) k.accounts;
  covered = k.covered;
}

room_left : (capacity : ℤ) (n : ℕ) → ltb 0 (missing capacity n) ≡ false → pos n ≤ℤ capacity
room_left capacity n e = elim (Bool-cases (ltb_ℤ capacity (pos n))) [
  | inr enough ↦ ground arith
  | inl short ↦
      let lower : pos_part capacity < n + neg_part capacity = ground arith in
      let gap : 0 < pos_part (pos n -ℤ capacity) = omega int_laws in absurd (ground arith)
]

-- An enforced admission found room for what it holds.
pub room_of :
    (a : Account) (campaign : Option Campaign) (ceiling n : ℕ)
    → enforce true ceiling campaign (check_capacity a campaign n) ≡ ok tt
    → pos n ≤ℤ a.confirmed -ℤ a.held
unfolding enforce check_capacity
room_of a campaign ceiling n e = elim (Bool-cases (ltb 0 (missing (a.confirmed -ℤ a.held) n))) [
  | inr enough ↦ room_left (a.confirmed -ℤ a.held) n enough
  | inl short ↦ absurd (ground arith)
]

-- Under enforcement every account that was covered stays covered: no admission holds more than the
-- confirmed cash allows, whatever the campaign, the ceiling and the state of the key.
pub reserve_stays-Solvent :
    (input : ReserveInput) (db : FundingDb) {i : ℕ} {db' : FundingDb}
    → Solvent db
    → reserve_reward_budget true input db ≡ ok (i, db')
    → Solvent db'
unfolding reserve_reward_budget admit
reserve_stays-Solvent input db {i} {db'} s e =
    let account = (lock_funding_account input.organization_id db).0 in
    let locked = (lock_funding_account input.organization_id db).1 in
    let (kept, there) = lock-Solvent input.organization_id db s in
    let existing = find_reservation_by_key input.business_key locked in
    let delta = reserve_delta existing input.ceiling locked in
    let (_, _, e1) = >>=-eq-ok (assert_rupiah 0 input.ceiling) _ e in
    let (campaign, _, e2) = >>=-eq-ok (read_campaign input.campaign_id locked) _ e1 in
    elim (Option-cases (covering existing input.ceiling)) [
      | inr (old, covered) ↦ subst Solvent (ground arith) kept
      | inl new ↦
          let e5 : admit true input account campaign existing locked ≡ ok (i, db') = ground arith in
          let check = check_capacity account campaign delta in
          let (_, allowed, e6) = >>=-eq-ok (enforce true input.ceiling campaign check) _ e5 in
          let (held, h, g) =
            >>=-eq-ok (hold account.id (campaign_ref campaign) delta locked) _ e6 in
          let room = room_of account campaign input.ceiling delta allowed in
          let after =
            hold-Solvent account (campaign_ref campaign) delta locked held there room kept h in
          let same : (write_reservation existing input account.id (campaign_ref campaign) delta
                check held).1
              ≡ db' =
            cc g in
          subst Solvent same
            (write-Solvent existing input account.id (campaign_ref campaign) delta check held after)
    ]
