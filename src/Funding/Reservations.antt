-- ===== src/Funding/Reservations.antt =====
-- The laws of admission (`reserveRewardBudget`): the books balance, and under enforcement no
-- admission takes an account beyond its confirmed cash.
use re_loop.Base.{
  ℕ, ◌+◌, ◌≡◌, refl, Bool, false, Option, none, some, List, [], ◌∷◌, ◌++◌, pos, ◌+ℤ◌, int_laws, ltb,
  arith, Bool-cases, Option-cases, inl, inr, ok, >>=-eq-ok, subst, sym, ◌∙◌,
}
use re_loop.Store.{
  Account, Campaign, Reservation, FundingDb, released, find_row-All, update_row-All, append-All,
  found_by_key, Keyed-later,
}
use re_loop.Funding.Capacity.{
  lock_funding_account, account_of_organization, empty_account, CapacityCheck, check_capacity,
  assert_rupiah,
}
use re_loop.Funding.Reserve.{
  ReserveInput, find_reservation, find_reservation_by_key, set_reservation, is_active,
  reserve_delta, read_campaign, of_other_organization, belongs_elsewhere, covering, campaign_ref,
  enforce, extended, fresh, write_reservation, hold, admit, reserve_reward_budget,
}
use re_loop.Funding.Bumps.{
  SameRows, SameRows-refl, SameRows-trans, SameRows-Effect, bump_account-Effect,
  bump_campaign-Effect, set_reservation-Effect, add_reservation-Effect,
}
use re_loop.Funding.Identity.{
  WellKeyed-SameRows, WellKeyed-set_reservation, WellKeyed-add_reservation, reservation_id,
  commit_id,
}
use re_loop.Funding.Invariant.{
  Effect, Effect-cast, Effect-trans, Effect-conserved, ReleasedEmpty, held_in,
}
use re_loop.Funding.Linking.{Lawful}

pub hold-Effect :
    (account : ℕ) (campaign : Option ℕ) (delta : ℕ) (db db' : FundingDb)
    → hold account campaign delta db ≡ ok db'
    → SameRows db db' × Effect account (pos delta) (pos 0) db db'
unfolding hold
hold-Effect account campaign delta db db' e = elim (Bool-cases (ltb 0 delta)) [
  | inl some_more ↦
      let (held, h, g) = >>=-eq-ok _ _ (rw some_more at e) in
      let (rows, a) = bump_account-Effect _ _ _ db held h in
      let (rows', b) = bump_campaign-Effect account _ _ _ held db' g in
      (SameRows-trans rows rows', Effect-cast (omega int_laws) (omega int_laws) (Effect-trans a b))
  | inr no_more ↦
      let nothing : delta ≡ 0 = ground arith in
      let same : db ≡ db' = ground arith in
      rw nothing (
        subst (λ d. SameRows db d × Effect account (pos 0) (pos 0) db d) same
          (SameRows-refl db, SameRows-Effect (SameRows-refl db) refl))
]

-- A new account is empty, so it changes what no account holds.
held_in-empty :
    (a i o : ℕ) (l : List Account) → held_in a (l ++ empty_account i o ∷ []) ≡ held_in a l
held_in-empty a i o [] = ground arith
held_in-empty a i o (x ∷ l) = ground (arith, held_in-empty a i o l)

pub lock-Lawful : (o : ℕ) (db : FundingDb) → Lawful db → Lawful (lock_funding_account o db).1
unfolding lock_funding_account
lock-Lawful o db l = elim (Option-cases (account_of_organization o db)) [
  | inr (a, there) ↦ rw (there, lock_funding_account) l
  | inl absent ↦
      rw (absent, lock_funding_account)
        (record {
          keyed = record {
            reservations =
                Keyed-later reservation_id db.next_id _ db.reservations (omega arith)
                  l.keyed.reservations;
            commits = Keyed-later commit_id db.next_id _ db.commits (omega arith) l.keyed.commits;
            linked = l.keyed.linked;
          };
          sound = record {
            conserved = λ a. held_in-empty a db.next_id o db.accounts ∙ l.sound.conserved a;
            paid_within = l.sound.paid_within;
            released_empty = l.sound.released_empty;
          };
        })
]

-- What the reservation gains is what the account gained.
extended_grows :
    (r : Reservation) (ceiling delta : ℕ) (s : CapacityCheck)
    → ReleasedEmpty r
    → pos (extended ceiling delta s r).remaining ≡ pos r.remaining +ℤ pos delta
extended_grows r ceiling delta s empty = elim (Bool-cases (is_active r.status)) [
  | inl live ↦ rw live (omega int_laws)
  | inr closed ↦
      let over : r.status ≡ released = ground arith in rw (closed, empty over) (omega int_laws)
]

-- Writing the reservation once its holds are made.
write-Lawful :
    (existing : Option Reservation) (input : ReserveInput) (account : ℕ) (campaign : Option ℕ)
    (s : CapacityCheck) (db held : FundingDb)
    → existing ≡ find_reservation_by_key input.business_key db
    → belongs_elsewhere existing account input.user_id ≡ false
    → covering existing input.ceiling ≡ none
    → Lawful db
    → SameRows db held
    → Effect account (pos (reserve_delta existing input.ceiling db)) (pos 0) db held
    → Lawful
        (write_reservation existing input account campaign
          (reserve_delta existing input.ceiling db)
          s
          held).1
unfolding write_reservation reserve_delta
write-Lawful none input account campaign s db held known here new l rows a =
    let r = fresh input account campaign s held.next_id in
    let after = record held {
      reservations = held.reservations ++ r ∷ [];
      next_id = held.next_id + 1;
    } in
    record {
      keyed =
          WellKeyed-add_reservation held after r refl refl refl refl
            (WellKeyed-SameRows rows l.keyed);
      sound = record {
        conserved =
            Effect-conserved (Effect-trans a (add_reservation-Effect held after r refl refl refl))
              (omega int_laws) l.sound.conserved;
        paid_within = rw rows.same_commits l.sound.paid_within;
        released_empty =
            append-All ReleasedEmpty held.reservations (r ∷ [])
              (rw rows.same_reservations l.sound.released_empty) (λ q. cc, tt);
      };
    }
write-Lawful (some r) input account campaign s db held known here new l rows a =
    let found =
      found_by_key reservation_id _ db.reservations r l.keyed.reservations.distinct (sym known) in
    let empty = find_row-All ReleasedEmpty _ db.reservations r l.sound.released_empty found in
    let there : find_reservation r.id held ≡ some r = rw rows.same_reservations found in
    let one : r.account_id ≡ account = ground arith in
    let delta = reserve_delta (some r) input.ceiling db in
    let g = extended input.ceiling delta s in
    let b =
      set_reservation-Effect r.id g (pos delta) held r there refl
        (extended_grows r input.ceiling delta s empty) in
    record {
      keyed =
          WellKeyed-set_reservation r.id g held (λ x. refl) (λ x. refl)
            (WellKeyed-SameRows rows l.keyed);
      sound = record {
        conserved =
            Effect-conserved
              (Effect-trans a (
                subst (λ i. Effect i (pos 0) (pos delta) held (set_reservation r.id g held)) one b))
              (omega int_laws) l.sound.conserved;
        paid_within = rw rows.same_commits l.sound.paid_within;
        released_empty =
            update_row-All ReleasedEmpty _ g held.reservations r
              (rw rows.same_reservations l.sound.released_empty) there (λ q. cc);
      };
    }

admit-Lawful :
    (enforced : Bool) (input : ReserveInput) (account : Account) (campaign : Option Campaign)
    (existing : Option Reservation) (db : FundingDb) (i : ℕ) (db' : FundingDb)
    → existing ≡ find_reservation_by_key input.business_key db
    → belongs_elsewhere existing account.id input.user_id ≡ false
    → covering existing input.ceiling ≡ none
    → Lawful db
    → admit enforced input account campaign existing db ≡ ok (i, db')
    → Lawful db'
unfolding admit
admit-Lawful enforced input account campaign existing db i db' known here new l e =
    let delta = reserve_delta existing input.ceiling db in
    let s = check_capacity account campaign delta in
    let (_, _, e1) = >>=-eq-ok (enforce enforced input.ceiling campaign s) _ e in
    let (held, h, g) = >>=-eq-ok (hold account.id (campaign_ref campaign) delta db) _ e1 in
    let (rows, a) = hold-Effect _ _ _ db held h in
    let same : (write_reservation existing input account.id (campaign_ref campaign) delta s held).1
        ≡ db' =
      cc g in
    subst Lawful same (
      write-Lawful existing input account.id (campaign_ref campaign) s db held known here new l rows
        a)

pub reserve-Lawful :
    (enforced : Bool) (input : ReserveInput) (db : FundingDb) {i : ℕ} {db' : FundingDb}
    → Lawful db
    → reserve_reward_budget enforced input db ≡ ok (i, db')
    → Lawful db'
unfolding reserve_reward_budget
reserve-Lawful enforced input db {i} {db'} l e =
    let account = (lock_funding_account input.organization_id db).0 in
    let locked = (lock_funding_account input.organization_id db).1 in
    let kept = lock-Lawful input.organization_id db l in
    let existing = find_reservation_by_key input.business_key locked in
    let (_, _, e1) = >>=-eq-ok (assert_rupiah 0 input.ceiling) _ e in
    let (campaign, _, e2) = >>=-eq-ok (read_campaign input.campaign_id locked) _ e1 in
    elim (Bool-cases (of_other_organization campaign input.organization_id)) [
      | inl other ↦ absurd (ground arith)
      | inr own ↦ elim (Bool-cases (belongs_elsewhere existing account.id input.user_id)) [
        | inl elsewhere ↦ absurd (ground arith)
        | inr here ↦ elim (Option-cases (covering existing input.ceiling)) [
          | inr (old, covered) ↦ subst Lawful (ground arith) kept
          | inl new ↦
              admit-Lawful enforced input account campaign existing locked i db' refl here new kept
                (ground arith)
        ]
      ]
    ]
