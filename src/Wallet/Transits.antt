-- ===== src/Wallet/Transits.antt =====
-- The transitions of lib/wallet-service.ts in their parts, and what they keep.
use re_loop.Base.{
  Outcome, ℕ, ◌≡◌, refl, Bool, true, false, Option, none, some, List, arith, Bool-cases,
  Option-cases, inl, inr, ok, ◌>>=◌, >>=-eq-ok, subst,
}
use re_loop.Store.{Failure, Text, pending, find_row-All, found_by_key, update_row}
use re_loop.Funding.{settle_payout_funding}
use re_loop.Wallet.Rows.{LedgerRow, Redemption, Destination, WalletDb}
use re_loop.Wallet.Reserve.{find_redemption, RedeemOutcome, target_of, with_status}
use re_loop.Wallet.Request.{CurrentUser}
use re_loop.Wallet.Transition.{
  RedemptionAction, succeed, TransitionInput, transitions, includes_redemption, set_redemption,
  moved_to, pay_source, settle_money, transition_new, transition_redemption, destination_for_change,
  lock_redemption_for_change, status_eq,
}
use re_loop.Wallet.Backing.{Backed, Backed-load, AllBacked, redemption_id}
use re_loop.Wallet.Settling.{Keeps}
use re_loop.Wallet.Moves.{
  outcome_cases, changed_row, moved-Keeps, settles_reserve, money-AllBacked, pending_row,
}

-- The ledger after the reserve was held or settled.
abbrev pub ledger_after :
    Option RedeemOutcome → (LedgerRow → Bool) → List LedgerRow → List LedgerRow
ledger_after none p l = l
ledger_after (some o) p l = update_row p (with_status (target_of o)) l

pay_source-rows :
    (actor : CurrentUser) (action : RedemptionAction) (r : Redemption) (db : WalletDb)
    {db' : WalletDb}
    → pay_source actor action r db ≡ ok db'
    → (db'.ledger ≡ db.ledger) × (db'.redemptions ≡ db.redemptions)
unfolding pay_source
pay_source-rows actor succeed r db {db'} e =
    let (x, _, g) =
      >>=-eq-ok (settle_payout_funding r.id r.user_id r.amount (some actor.id) db.funding) _ e in
    let same : record db { funding = x.1 } ≡ db' = cc g in
    subst (λ d. (d.ledger ≡ db.ledger) × (d.redemptions ≡ db.redemptions)) same (refl, refl)
pay_source-rows actor _ r db e = ground arith

settled-rows :
    (actor : CurrentUser) (action : RedemptionAction) (o : Option RedeemOutcome)
    (g : Redemption → Redemption) (r : Redemption) (db : WalletDb) {db' : WalletDb}
    (b : Backed db.ledger r)
    → find_redemption r.id db ≡ some r
    → b.reserve.status ≡ pending
    → Keeps g
    → AllBacked db
    → settle_money actor action r o (set_redemption r.id g db) ≡ ok db'
    → (find_redemption r.id db' ≡ some (g r))
      × (db'.ledger ≡ ledger_after o (pending_row b.reserve) db.ledger)
unfolding settle_money
settled-rows actor action none g r db {db'} b found waiting k a e =
    let same : set_redemption r.id g db ≡ db' = ground arith in
    subst (λ d. (find_redemption r.id d ≡ some (g r)) × (d.ledger ≡ db.ledger)) same
      (changed_row g db.redemptions r k.same_id found, refl)
settled-rows actor action (some o) g r db {db'} b found waiting k a e =
    let changed = changed_row g db.redemptions r k.same_id found in
    let settled = settles_reserve g o db r b changed k waiting a in
    let (ledger, rows) = pay_source-rows actor action r _ (rw settled at e) in
    (rw rows changed, ledger)

pub money-rows :
    (actor : CurrentUser) (action : RedemptionAction) (r : Redemption) (d : Option Destination)
    (input : TransitionInput) (db : WalletDb) {db' : WalletDb} (b : Backed db.ledger r)
    → find_redemption r.id db ≡ some r
    → b.reserve.status ≡ pending
    → AllBacked db
    → settle_money actor action r
        (transitions action).reserve
        (set_redemption r.id (moved_to (transitions action).target d input actor) db)
      ≡ ok db'
    → (find_redemption r.id db' ≡ some (moved_to (transitions action).target d input actor r))
      × (db'.ledger ≡ ledger_after (transitions action).reserve (pending_row b.reserve) db.ledger)
money-rows actor action r d input db b found waiting a e =
    settled-rows actor action _ _ r db b found waiting (moved-Keeps _ d input actor) a e

new-parts :
    (encrypt : Text → Text) (actor : CurrentUser) (input : TransitionInput) (r : Redemption)
    (reserve : LedgerRow) (db : WalletDb) {db' : WalletDb}
    → transition_new encrypt actor input r reserve db ≡ ok db'
    → (d : Option Destination) × (reserve.status ≡ pending)
      × (includes_redemption (transitions input.action).from r.status ≡ true)
      × (settle_money actor input.action r
            (transitions input.action).reserve
            (set_redemption r.id (moved_to (transitions input.action).target d input actor) db)
          ≡ ok db')
unfolding transition_new
new-parts encrypt actor input r reserve db e =
    elim (outcome_cases
      (destination_for_change encrypt r (transitions input.action).destination db)) [
        | inr (f, refused) ↦ absurd (ground arith)
        | inl (d, destination) ↦ (d, ground arith, ground arith, ground arith)
      ]

-- A transition that is no replay, in its parts.
pub transition-parts :
    (encrypt : Text → Text) (actor : CurrentUser) (i : ℕ) (input : TransitionInput) (db : WalletDb)
    (r : Redemption) {db' : WalletDb} (b : Backed db.ledger r)
    → AllBacked db
    → find_redemption i db ≡ some r
    → transition_redemption encrypt actor i input db ≡ ok (false, db')
    → (d : Option Destination) × (find_redemption r.id db ≡ some r)
      × (b.reserve.status ≡ pending)
      × (includes_redemption (transitions input.action).from r.status ≡ true)
      × (settle_money actor input.action r
            (transitions input.action).reserve
            (set_redemption r.id (moved_to (transitions input.action).target d input actor) db)
          ≡ ok db')
unfolding transition_redemption lock_redemption_for_change
transition-parts encrypt actor i input db r {db'} b a found e =
    let own : find_redemption r.id db ≡ some r =
      found_by_key redemption_id _ db.redemptions r a.redemptions.distinct found in
    let loaded = Backed-load db r b in
    elim (Bool-cases (status_eq r.status (transitions input.action).target)) [
      | inl there ↦ absurd (ground arith)
      | inr new ↦
          let answer : WalletDb → Outcome Failure (Bool × WalletDb) = λ d. ok (false, d) in
          let first : (transition_new encrypt actor input r b.reserve db >>= answer)
              ≡ ok (false, db') =
            ground arith in
          let (after, h, g) =
            >>=-eq-ok (transition_new encrypt actor input r b.reserve db) answer first in
          let same : after ≡ db' = cc g in
          let (d, waiting, from, money) =
            new-parts encrypt actor input r b.reserve db (rw same at h) in
          (d, own, waiting, from, money)
    ]

pub replay_same :
    (encrypt : Text → Text) (actor : CurrentUser) (i : ℕ) (input : TransitionInput) (db : WalletDb)
    {again : Bool} {db' : WalletDb}
    → again ≡ true
    → transition_redemption encrypt actor i input db ≡ ok (again, db')
    → db ≡ db'
unfolding transition_redemption
replay_same encrypt actor i input db replay e = ground arith

-- A transition, whether it is replayed or new, keeps every request backed.
pub transition-AllBacked :
    (encrypt : Text → Text) (actor : CurrentUser) (i : ℕ) (input : TransitionInput) (db : WalletDb)
    {again : Bool} {db' : WalletDb}
    → AllBacked db
    → transition_redemption encrypt actor i input db ≡ ok (again, db')
    → AllBacked db'
unfolding transition_redemption lock_redemption_for_change
transition-AllBacked encrypt actor i input db {again} {db'} a e =
    elim (Option-cases (find_redemption i db)) [
      | inl absent ↦ absurd (ground arith)
      | inr (r, found) ↦
          let b = find_row-All (Backed db.ledger) _ db.redemptions r a.backed found in
          let loaded = Backed-load db r b in
          elim (Bool-cases again) [
            | inl replay ↦ subst AllBacked (replay_same encrypt actor i input db replay e) a
            | inr new ↦
                let e1 : transition_redemption encrypt actor i input db ≡ ok (false, db') =
                  rw new at e in
                let (d, own, waiting, from, money) =
                  transition-parts encrypt actor i input db r b a found e1 in
                money-AllBacked actor input.action r d input db b own waiting from a money
          ]
    ]
