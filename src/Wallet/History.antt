-- ===== src/Wallet/History.antt =====
-- Every history of the wallet operations of lib/wallet-service.ts, as a step relation.
use re_loop.Base.{
  Option, ℕ, ◌≡◌, refl, Bool, some, ok, arith, Option-cases, Bool-cases, inl, inr, subst,
}
use re_loop.Store.{Source, Text, found_by_key, find_row-All}
use re_loop.Wallet.Rows.{Redemption, ProofPath, WalletDb}
use re_loop.Wallet.Reserve.{find_redemption}
use re_loop.Wallet.Request.{CurrentUser, RequestInput, request_redemption}
use re_loop.Wallet.Transition.{
  TransitionInput, transition_redemption, flag_redemption_for_reconciliation,
  attach_redemption_proof, destination_for_change, recorded, lock_redemption_for_change,
  set_redemption, flagged, with_proof,
}
use re_loop.Wallet.Backing.{Backed, AllBacked, redemption_id, Backed-load}
use re_loop.Wallet.Settling.{AllBacked-change}
use re_loop.Wallet.Moves.{outcome_cases}
use re_loop.Wallet.Transits.{transition-AllBacked}
use re_loop.Funding.{Admitted}
use re_loop.Wallet.Credit.{CreditRewardInput, EffectOutcome, apply_reward_effect}
use re_loop.Wallet.Crediting.{effect-AllBacked}
use re_loop.Wallet.Requests.{request-AllBacked}

flag-AllBacked :
    (encrypt : Text → Text) (actor : CurrentUser) (i : ℕ) (note : Text) (db : WalletDb)
    {again : Bool} {db' : WalletDb}
    → AllBacked db
    → flag_redemption_for_reconciliation encrypt actor i note db ≡ ok (again, db')
    → AllBacked db'
unfolding flag_redemption_for_reconciliation lock_redemption_for_change
flag-AllBacked encrypt actor i note db {again} {db'} a e =
    elim (Option-cases (find_redemption i db)) [
      | inl absent ↦ absurd (ground arith)
      | inr (r, found) ↦
          let own : find_redemption r.id db ≡ some r =
            found_by_key redemption_id _ db.redemptions r a.redemptions.distinct found in
          let loaded =
            Backed-load db r (find_row-All (Backed db.ledger) _ db.redemptions r a.backed found) in
          elim (Bool-cases r.reconciliation_required) [
            | inl before ↦ subst AllBacked (ground arith) a
            | inr new ↦ elim (outcome_cases (destination_for_change encrypt r recorded db)) [
              | inr (f, refused) ↦ absurd (ground arith)
              | inl (d, destination) ↦
                  let same : set_redemption r.id (flagged note d actor.id) db ≡ db' =
                    ground arith in
                  subst AllBacked same (
                    AllBacked-change r.id (flagged note d actor.id) db r own
                      (record {
                        same_id = λ x. refl;
                        same_user = λ x. refl;
                        same_amount = λ x. refl;
                      })
                      refl a)
            ]
          ]
    ]

attach-AllBacked :
    (encrypt : Text → Text) (actor : CurrentUser) (i : ℕ) (path : ProofPath) (expected : ℕ)
    (db : WalletDb) {db' : WalletDb}
    → AllBacked db
    → attach_redemption_proof encrypt actor i path expected db ≡ ok db'
    → AllBacked db'
unfolding attach_redemption_proof lock_redemption_for_change
attach-AllBacked encrypt actor i path expected db {db'} a e =
    elim (Option-cases (find_redemption i db)) [
      | inl absent ↦ absurd (ground arith)
      | inr (r, found) ↦
          let own : find_redemption r.id db ≡ some r =
            found_by_key redemption_id _ db.redemptions r a.redemptions.distinct found in
          elim (outcome_cases (destination_for_change encrypt r recorded db)) [
            | inr (f, refused) ↦ absurd (ground arith)
            | inl (d, destination) ↦
                let same : set_redemption r.id (with_proof path d) db ≡ db' = ground arith in
                subst AllBacked same (
                  AllBacked-change r.id (with_proof path d) db r own
                    (record { same_id = λ x. refl; same_user = λ x. refl; same_amount = λ x. refl })
                    refl a)
          ]
    ]

module _ (encrypt : Text → Text) (admitted : Source → Option Admitted) (cutover : Option ℕ)
    (is_erased : ℕ → Bool) where
  -- One transaction on the wallet tables.
  pub data Step : WalletDb → WalletDb → Type 0 where
    requests :
        (actor : CurrentUser) (input : RequestInput) {x : Redemption × Bool} {db db' : WalletDb}
        → request_redemption encrypt actor input db ≡ ok (x, db')
        → Step db db'
    transits :
        (actor : CurrentUser) (i : ℕ) (input : TransitionInput) {again : Bool} {db db' : WalletDb}
        → transition_redemption encrypt actor i input db ≡ ok (again, db')
        → Step db db'
    flags :
        (actor : CurrentUser) (i : ℕ) (note : Text) {again : Bool} {db db' : WalletDb}
        → flag_redemption_for_reconciliation encrypt actor i note db ≡ ok (again, db')
        → Step db db'
    attaches :
        (actor : CurrentUser) (i : ℕ) (path : ProofPath) (expected : ℕ) {db db' : WalletDb}
        → attach_redemption_proof encrypt actor i path expected db ≡ ok db'
        → Step db db'
    credits :
        (input : CreditRewardInput) {o : EffectOutcome} {db db' : WalletDb}
        → apply_reward_effect admitted cutover is_erased input db ≡ ok (o, db')
        → Step db db'

  Step-Backed : {db db' : WalletDb} → Step db db' → AllBacked db → AllBacked db'
  Step-Backed (requests actor input {db = db} e) a = request-AllBacked encrypt actor input db a e
  Step-Backed (transits actor i input {db = db} e) a =
      transition-AllBacked encrypt actor i input db a e
  Step-Backed (flags actor i note {db = db} e) a = flag-AllBacked encrypt actor i note db a e
  Step-Backed (attaches actor i path expected {db = db} e) a =
      attach-AllBacked encrypt actor i path expected db a e
  Step-Backed (credits input {db = db} e) a =
      effect-AllBacked admitted cutover is_erased input db a e

  -- What a sequence of transactions reaches.
  pub data Reach (first : WalletDb) : WalletDb → Type 0 where
    start : Reach first first
    next : {db db' : WalletDb} → Reach first db → Step db db' → Reach first db'

  -- From a database in which every payout request is backed, any history of wallet transactions
  -- leads to one in which every request has exactly one live reserve row, of the same user, for the
  -- same amount, in the status that agrees with the status of the request.
  pub requests_stay-AllBacked :
      {first db : WalletDb} → AllBacked first → Reach first db → AllBacked db
  requests_stay-AllBacked a start = a
  requests_stay-AllBacked a (next before step) = Step-Backed step (requests_stay-AllBacked a before)
