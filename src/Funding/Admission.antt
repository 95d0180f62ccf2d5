-- ===== src/Funding/Admission.antt =====
-- What an admission leaves under its key (`reserveRewardBudget` of lib/reward-funding.ts).
use re_loop.Base.{
  ap, ℕ, ◌≤◌, ◌≡◌, refl, sym, ◌∙◌, Bool, true, false, Option, none, some, List, [], ◌∷◌, ◌==◌,
  arith, Bool-cases, Option-cases, inl, inr, find_row, ok, >>=-eq-ok, subst,
}
use re_loop.Store.{
  find_row-test, Reservation, active, FundingDb, Account, Campaign, update_row, find-append_new,
  key_eq, key_eq_refl, found_by_key, Keyed, find_row-test, Key,
}
use re_loop.Funding.Capacity.{lock_funding_account, assert_rupiah, CapacityCheck, check_capacity}
use re_loop.Funding.Reserve.{
  ReserveInput, find_reservation_by_key, reserve_delta, read_campaign, covering, campaign_ref,
  extended, fresh, enforce, write_reservation, hold, admit, reserve_reward_budget,
  belongs_elsewhere, of_other_organization,
}
use re_loop.Funding.Identity.{reservation_id, WellKeyed-SameRows}
use re_loop.Funding.Linking.{Lawful}
use re_loop.Funding.Reservations.{lock-Lawful, hold-Effect}

-- An active reservation under this key, of this user, for at least this ceiling.
pub record Reserved (input : ReserveInput) (i : ℕ) (db : FundingDb) : Type 0 where
  pub row : Reservation
  pub found : find_reservation_by_key input.business_key db ≡ some row
  pub named : row.id ≡ i
  pub held : row.status ≡ active
  pub covers : input.ceiling ≤ row.ceiling
  pub of_user : row.user_id ≡ input.user_id

-- A write by the identifier of the row that a key finds is found by that key.
find_written :
    (k : Key) (g : Reservation → Reservation) (l : List Reservation) (r : Reservation)
    → ((c : Reservation) → (g c).business_key ≡ c.business_key)
    → find_row (λ c. key_eq c.business_key k) l ≡ some r
    → find_row (λ c. c.id == r.id) l ≡ some r
    → find_row (λ c. key_eq c.business_key k) (update_row (λ c. c.id == r.id) g l) ≡ some (g r)
find_written k g [] r keep e f = absurd (ground arith)
find_written k g (x ∷ l) r keep e f = elim (Bool-cases (x.id == r.id)) [
  | inl here ↦
      let same : x ≡ r = head_is (rw here at f) in
      let key : key_eq x.business_key k ≡ true = found_key x same in
      let written : key_eq (g x).business_key k ≡ true = ap (λ y. key_eq y k) (keep x) ∙ key in
      rw here (first_found (g x) l written ∙ ap (λ y. some (g y)) same)
  | inr there ↦ elim (Bool-cases (key_eq x.business_key k)) [
    | inl key ↦ absurd (apart (rw key at e) there)
    | inr other ↦ rw there (rw other (find_written k g l r keep (rw other at e) (rw there at f)))
  ]
]
  where
    first_found :
        (y : Reservation) (l : List Reservation)
        → key_eq y.business_key k ≡ true
        → find_row (λ c. key_eq c.business_key k) (y ∷ l) ≡ some y
    first_found y l h = rw h refl

    head_is : some x ≡ some r → x ≡ r
    head_is q = cc

    found_key : (y : Reservation) → y ≡ r → key_eq y.business_key k ≡ true
    found_key y q = rw q (find_row-test (λ c. key_eq c.business_key k) (x ∷ l) r e)

    apart : some x ≡ some r → (x.id == r.id) ≡ false → ⊥
    apart q n = ground arith

write-Reserved :
    (existing : Option Reservation) (input : ReserveInput) (account : ℕ) (campaign : Option ℕ)
    (delta : ℕ) (s : CapacityCheck) (db : FundingDb)
    → existing ≡ find_reservation_by_key input.business_key db
    → belongs_elsewhere existing account input.user_id ≡ false
    → Keyed reservation_id db.next_id db.reservations
    → Reserved input
        (write_reservation existing input account campaign delta s db).0
        (write_reservation existing input account campaign delta s db).1
unfolding write_reservation
write-Reserved none input account campaign delta s db known here l =
    let r = fresh input account campaign s db.next_id in
    record {
      row = r;
      found =
          find-append_new (λ c. key_eq c.business_key input.business_key) db.reservations r
            (sym known) (key_eq_refl input.business_key);
      named = refl;
      held = refl;
      covers = omega arith;
      of_user = refl;
    }
write-Reserved (some r) input account campaign delta s db known here l = record {
  row = extended input.ceiling delta s r;
  found =
      find_written input.business_key (extended input.ceiling delta s) db.reservations r (λ c. refl)
        (sym known) (found_by_key reservation_id _ db.reservations r l.distinct (sym known));
  named = refl;
  held = refl;
  covers = omega arith;
  of_user = ground arith;
}

admit-Reserved :
    (enforced : Bool) (input : ReserveInput) (account : Account) (campaign : Option Campaign)
    (existing : Option Reservation) (db : FundingDb) (i : ℕ) (db' : FundingDb)
    → existing ≡ find_reservation_by_key input.business_key db
    → belongs_elsewhere existing account.id input.user_id ≡ false
    → Lawful db
    → admit enforced input account campaign existing db ≡ ok (i, db')
    → Reserved input i db'
unfolding admit
admit-Reserved enforced input account campaign existing db i db' known here l e =
    let delta = reserve_delta existing input.ceiling db in
    let s = check_capacity account campaign delta in
    let (_, _, e1) = >>=-eq-ok (enforce enforced input.ceiling campaign s) _ e in
    let (held, h, g) = >>=-eq-ok (hold account.id (campaign_ref campaign) delta db) _ e1 in
    let (rows, _) = hold-Effect account.id (campaign_ref campaign) delta db held h in
    let w = write_reservation existing input account.id (campaign_ref campaign) delta s held in
    let id_same : w.0 ≡ i = ground arith in
    let db_same : w.1 ≡ db' = ground arith in
    subst (λ j. Reserved input j db') id_same
      (subst (λ d. Reserved input w.0 d) db_same
        (write-Reserved existing input account.id (campaign_ref campaign) delta s held
          (known
            ∙ ap (λ rs. find_row (λ c. key_eq c.business_key input.business_key) rs)
                (sym rows.same_reservations))
          here (WellKeyed-SameRows rows l.keyed).reservations))

covered-Reserved :
    (account : ℕ) (input : ReserveInput) (db : FundingDb) (old i : ℕ) (db' : FundingDb)
    (existing : Option Reservation)
    → existing ≡ find_reservation_by_key input.business_key db
    → belongs_elsewhere existing account input.user_id ≡ false
    → covering existing input.ceiling ≡ some old
    → old ≡ i
    → db ≡ db'
    → Reserved input i db'
covered-Reserved account input db old i db' none known here covered p q = absurd (ground arith)
covered-Reserved account input db old i db' (some r) known here covered p q =
    subst (λ d. Reserved input i d) q
      record {
        row = r;
        found = sym known;
        named = ground arith;
        held = ground arith;
        covers = ground arith;
        of_user = ground arith;
      }

-- An admission that succeeds leaves an active reservation of the user under its key that covers the
-- ceiling, and answers with its identifier, also when the key was there before.
pub reserve-Reserved :
    (enforced : Bool) (input : ReserveInput) (db : FundingDb) {i : ℕ} {db' : FundingDb}
    → Lawful db
    → reserve_reward_budget enforced input db ≡ ok (i, db')
    → Reserved input i db'
unfolding reserve_reward_budget
reserve-Reserved enforced input db {i} {db'} l e =
    let account = (lock_funding_account input.organization_id db).0 in
    let locked = (lock_funding_account input.organization_id db).1 in
    let kept = lock-Lawful input.organization_id db l in
    let existing = find_reservation_by_key input.business_key locked in
    let (_, _, e1) = >>=-eq-ok (assert_rupiah 0 input.ceiling) _ e in
    let (campaign, _, e2) = >>=-eq-ok (read_campaign input.campaign_id locked) _ e1 in
    elim (Bool-cases (of_other_organization campaign input.organization_id)) [
      | inl other ↦ absurd (ground arith)
      | inr own ↦ elim (Bool-cases (belongs_elsewhere existing account.id input.user_id)) [
        | inl elsewhere ↦ absurd (ground arith)
        | inr here ↦ elim (Option-cases (covering existing input.ceiling)) [
          | inr (old, covered) ↦
              covered-Reserved account.id input locked old i db' existing refl here covered
                (ground arith) (ground arith)
          | inl new ↦
              admit-Reserved enforced input account campaign existing locked i db' refl here kept
                (ground arith)
        ]
      ]
    ]
