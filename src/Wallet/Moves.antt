-- ===== src/Wallet/Moves.antt =====
-- Each operation of lib/wallet-service.ts keeps every payout request backed by its reserve.
use re_loop.Base.{
  ℕ, ◌≡◌, ◌≢◌, refl, Bool, true, ◌&&◌, Option, some, List, [], ◌∷◌, ◌==◌, arith, inl, inr, ◌⊎◌,
  find_row, ok, err, Outcome, >>=-eq-ok, subst, neg, pos, eqb_ℤ,
}
use re_loop.Store.{pending, rejected, Failure, FundingDb, found_by_key, update_row}
use re_loop.Funding.{settle_payout_funding}
use re_loop.Wallet.Rows.{
  LedgerRow, Redemption, RedemptionStatus, approved, processing, success, failed, reversed_status,
  Destination, WalletDb,
}
use re_loop.Wallet.Reserve.{
  expected_reserve_status, has_status, load_redeem_reserve, find_redemption, RedeemOutcome,
  success_outcome, failed_outcome, target_of, with_status, set_ledger_status, settle_redeem_ledger,
  settle_pending,
}
use re_loop.Wallet.Request.{CurrentUser}
use re_loop.Wallet.Transition.{
  RedemptionAction, approve, process, succeed, fail, cancel, TransitionInput, transitions,
  includes_redemption, set_redemption, moved_to, pay_source, settle_money,
}
use re_loop.Wallet.Backing.{Backed, AllBacked, ledger_id, find-where, find-and}
use re_loop.Wallet.Settling.{Keeps, AllBacked-change, AllBacked-settle}

pub outcome_cases :
    {A : Type 0} (o : Outcome Failure A) → ((a : A) × (o ≡ ok a)) ⊎ ((e : Failure) × (o ≡ err e))
outcome_cases (ok a) = inl (a, refl)
outcome_cases (err e) = inr (e, refl)

pub moved-Keeps :
    (s : RedemptionStatus) (d : Option Destination) (input : TransitionInput) (actor : CurrentUser)
    → Keeps (moved_to s d input actor)
moved-Keeps s d input actor = record {
  same_id = λ x. refl;
  same_user = λ x. refl;
  same_amount = λ x. refl;
}

settle_step :
    (i : ℕ) (o : RedeemOutcome) (db : WalletDb) (r : Redemption) (e : LedgerRow)
    → find_redemption i db ≡ some r
    → load_redeem_reserve r db ≡ ok e
    → e.status ≡ pending
    → find_row (λ y. (y.id == e.id) && has_status pending y) db.ledger ≡ some e
    → settle_redeem_ledger i o db
      ≡ ok ((with_status (target_of o) e, true), set_ledger_status e.id (target_of o) db)
unfolding settle_redeem_ledger settle_pending
settle_step i o db r e found loaded waiting there = ground arith

-- The test of the conditional update.
abbrev pub pending_row : LedgerRow → LedgerRow → Bool
pending_row e y = (y.id == e.id) && has_status pending y

pub found_reserve :
    (db : WalletDb) (r : Redemption) (b : Backed db.ledger r)
    → b.reserve.status ≡ pending
    → AllBacked db
    → find_row (pending_row b.reserve) db.ledger ≡ some b.reserve
found_reserve db r b waiting a =
    find-and (has_status pending) (λ y. y.id == b.reserve.id) db.ledger b.reserve
      (found_by_key ledger_id _ db.ledger b.reserve a.ledger.distinct
        (find-where _ db.ledger b.reserve b.only))
      (rw waiting refl)

-- The reserve of a request whose row has just changed is settled.
pub settles_reserve :
    (g : Redemption → Redemption) (o : RedeemOutcome) (db : WalletDb) (r : Redemption)
    (b : Backed db.ledger r)
    → find_redemption r.id (set_redemption r.id g db) ≡ some (g r)
    → Keeps g
    → b.reserve.status ≡ pending
    → AllBacked db
    → settle_redeem_ledger r.id o (set_redemption r.id g db)
      ≡ ok (
        (with_status (target_of o) b.reserve, true),
        set_ledger_status b.reserve.id (target_of o) (set_redemption r.id g db),
      )
unfolding load_redeem_reserve
settles_reserve g o db r b found k waiting a =
    let e = b.reserve in
    let user : (e.user_id == (g r).user_id) ≡ true = ground (arith, b.same_user, k.same_user r) in
    let amount : eqb_ℤ e.amount (neg (pos (g r).amount)) ≡ true =
      rw (b.same_amount, k.same_amount r) (ground arith) in
    let there = found_reserve db r b waiting a in
    settle_step r.id o (set_redemption r.id g db) (g r) e found
      (rw (k.same_id r, b.only, user, amount) refl) waiting there

-- The request after its change is found under its own identifier.
pub changed_row :
    (g : Redemption → Redemption) (l : List Redemption) (r : Redemption)
    → ((x : Redemption) → (g x).id ≡ x.id)
    → find_row (λ x. x.id == r.id) l ≡ some r
    → find_row (λ x. x.id == r.id) (update_row (λ x. x.id == r.id) g l) ≡ some (g r)
changed_row g [] r keep found = ground arith
changed_row g (x ∷ l) r keep found = ground (arith, keep x, changed_row g l r keep)

funding-AllBacked :
    (db : WalletDb) (f : FundingDb) → AllBacked db → AllBacked (record db { funding = f })
funding-AllBacked db f a = record {
  redemptions = a.redemptions;
  ledger = a.ledger;
  refers = a.refers;
  backed = a.backed;
}

pub pay_source-AllBacked :
    (actor : CurrentUser) (action : RedemptionAction) (r : Redemption) (db : WalletDb)
    {db' : WalletDb}
    → AllBacked db
    → pay_source actor action r db ≡ ok db'
    → AllBacked db'
unfolding pay_source
pay_source-AllBacked actor succeed r db {db'} a e =
    let (x, _, g) =
      >>=-eq-ok (settle_payout_funding r.id r.user_id r.amount (some actor.id) db.funding) _ e in
    let same : record db { funding = x.1 } ≡ db' = cc g in
    subst AllBacked same (funding-AllBacked db x.1 a)
pay_source-AllBacked actor _ r db a e = subst AllBacked (ground arith) a

-- Settling the reserve after the change to the new status.
settled-AllBacked :
    (actor : CurrentUser) (action : RedemptionAction) (o : RedeemOutcome) (s : RedemptionStatus)
    (r : Redemption) (d : Option Destination) (input : TransitionInput) (db : WalletDb)
    {db' : WalletDb} (b : Backed db.ledger r)
    → find_redemption r.id db ≡ some r
    → b.reserve.status ≡ pending
    → target_of o ≡ expected_reserve_status s
    → AllBacked db
    → settle_money actor action r (some o) (set_redemption r.id (moved_to s d input actor) db)
      ≡ ok db'
    → AllBacked db'
unfolding settle_money
settled-AllBacked actor action o s r d input db {db'} b found waiting agrees a e =
    let g : Redemption → Redemption = moved_to s d input actor in
    let k = moved-Keeps s d input actor in
    let after = set_ledger_status b.reserve.id (target_of o) (set_redemption r.id g db) in
    let settled =
      settles_reserve g o db r b (changed_row g db.redemptions r (λ x. refl) found) k waiting a in
    let counts : target_of o ≢ rejected = ground arith in
    let kept : AllBacked after =
      AllBacked-settle g (target_of o) db r b found waiting k agrees counts a in
    pay_source-AllBacked actor action r after kept (rw settled at e)

-- The two lines of `transitionRedemption` that write the request and its reserve.
pub money-AllBacked :
    (actor : CurrentUser) (action : RedemptionAction) (r : Redemption) (d : Option Destination)
    (input : TransitionInput) (db : WalletDb) {db' : WalletDb} (b : Backed db.ledger r)
    → find_redemption r.id db ≡ some r
    → b.reserve.status ≡ pending
    → includes_redemption (transitions action).from r.status ≡ true
    → AllBacked db
    → settle_money actor action r
        (transitions action).reserve
        (set_redemption r.id (moved_to (transitions action).target d input actor) db)
      ≡ ok db'
    → AllBacked db'
unfolding transitions settle_money expected_reserve_status
money-AllBacked actor approve r d input db {db'} b found waiting from a e =
    let same : set_redemption r.id (moved_to approved d input actor) db ≡ db' = ground arith in
    subst AllBacked same (
      AllBacked-change r.id (moved_to approved d input actor) db r found
        (moved-Keeps approved d input actor) (ground arith) a)
money-AllBacked actor process r d input db {db'} b found waiting from a e =
    let same : set_redemption r.id (moved_to processing d input actor) db ≡ db' = ground arith in
    subst AllBacked same (
      AllBacked-change r.id (moved_to processing d input actor) db r found
        (moved-Keeps processing d input actor) (ground arith) a)
money-AllBacked actor succeed r d input db b found waiting from a e =
    settled-AllBacked actor succeed success_outcome success r d input db b found waiting refl a e
money-AllBacked actor fail r d input db b found waiting from a e =
    settled-AllBacked actor fail failed_outcome failed r d input db b found waiting refl a e
money-AllBacked actor cancel r d input db b found waiting from a e =
    settled-AllBacked actor cancel failed_outcome reversed_status r d input db b found waiting refl
      a e
