-- ===== src/Wallet/Standing.antt =====
-- What each wallet operation does to a payout request that is over: nothing
-- (lib/wallet-service.ts).
use re_loop.Base.{
  ◌==◌, ==_iff, Bool-cases, Option-cases, find_row, ok, throw_if, or_throw, >>=-eq-ok, ℕ, ◌≡◌, refl,
  sym, ap, ◌∙◌, subst, ◌⊎◌, inl, inr, Bool, true, false, not, ◌&&◌, Option, none, some, List, [],
  ◌∷◌, arith,
}
use re_loop.Store.{
  Text, LedgerStatus, pending, http_error, redemption_not_found, reserve_mismatch, update_row,
  find_row-test, find_row-All, find-append,
}
use re_loop.Funding.{settle_payout_funding}
use re_loop.Wallet.Rows.{LedgerRow, Redemption, ProofPath, WalletDb}
use re_loop.Wallet.Reserve.{
  find_redemption, RedeemOutcome, settle_redeem_ledger, settle_pending, has_status, target_of,
  load_redeem_reserve,
}
use re_loop.Wallet.Request.{CurrentUser, RequestInput, request_redemption, find_request}
use re_loop.Wallet.Transition.{
  TransitionInput, RedemptionAction, succeed, transitions, transition_redemption, terminal_statuses,
  includes_redemption, flag_redemption_for_reconciliation, attach_redemption_proof,
  lock_redemption_for_change, destination_for_change, recorded, set_redemption, flagged, with_proof,
  settle_money, pay_source, moved_to,
}
use re_loop.Wallet.Backing.{Backed, AllBacked}
use re_loop.Wallet.Moves.{outcome_cases}
use re_loop.Wallet.Transits.{replay_same, transition-parts}
use re_loop.Wallet.Requests.{request_new-parts}
use re_loop.Wallet.Effects.{settled_transition}

find-update_other :
    (i k : ℕ) (g : Redemption → Redemption) (l : List Redemption)
    → ((x : Redemption) → (g x).id ≡ x.id)
    → (i == k) ≡ false
    → find_row (λ x. x.id == k) (update_row (λ x. x.id == i) g l) ≡ find_row (λ x. x.id == k) l
find-update_other i k g [] keep other = refl
find-update_other i k g (x ∷ l) keep other = ground (arith, keep x, find-update_other i k g l keep)

-- The money of a transition leaves the requests alone.
pay_source-redemptions :
    (actor : CurrentUser) (action : RedemptionAction) (r : Redemption) (db : WalletDb)
    {db' : WalletDb}
    → pay_source actor action r db ≡ ok db'
    → db'.redemptions ≡ db.redemptions
unfolding pay_source
pay_source-redemptions actor succeed r db {db'} e =
    let (x, _, g) =
      >>=-eq-ok (settle_payout_funding r.id r.user_id r.amount (some actor.id) db.funding) _ e in
    let same : record db { funding = x.1 } ≡ db' = cc g in
    ap (λ (d : WalletDb). d.redemptions) (sym same)
pay_source-redemptions actor _ r db e = ground arith

settle_pending-redemptions :
    (e : LedgerRow) (s : LedgerStatus) (db : WalletDb) {x : LedgerRow × Bool} {db' : WalletDb}
    → settle_pending e s db ≡ ok (x, db')
    → db'.redemptions ≡ db.redemptions
unfolding settle_pending
settle_pending-redemptions e s db done =
    elim (Option-cases (find_row (λ x. (x.id == e.id) && has_status pending x) db.ledger)) [
      | inr (x, there) ↦ ground arith
      | inl gone ↦ elim (Option-cases (find_row (λ x. x.id == e.id) db.ledger)) [
        | inr (x, there) ↦ ground arith
        | inl absent ↦ absurd (ground arith)
      ]
    ]

settle-redemptions :
    (i : ℕ) (o : RedeemOutcome) (db : WalletDb) {x : LedgerRow × Bool} {db' : WalletDb}
    → settle_redeem_ledger i o db ≡ ok (x, db')
    → db'.redemptions ≡ db.redemptions
unfolding settle_redeem_ledger
settle-redemptions i o db {x} {db'} done =
    let (r, _, d1) =
      >>=-eq-ok (or_throw (find_redemption i db) (http_error 404 redemption_not_found)) _ done in
    let (e, _, d2) = >>=-eq-ok (load_redeem_reserve r db) _ d1 in
    elim (Bool-cases (has_status (target_of o) e)) [
      | inl before ↦
          let same : db ≡ db' = ground arith in ap (λ (d : WalletDb). d.redemptions) (sym same)
      | inr now ↦ settle_pending-redemptions e (target_of o) db {x = x} {db' = db'} (ground arith)
    ]

money-redemptions :
    (actor : CurrentUser) (action : RedemptionAction) (r : Redemption) (o : Option RedeemOutcome)
    (db : WalletDb) {db' : WalletDb}
    → settle_money actor action r o db ≡ ok db'
    → db'.redemptions ≡ db.redemptions
unfolding settle_money
money-redemptions actor action r none db e = ground arith
money-redemptions actor action r (some o) db {db'} e =
    let (x, settled, e1) = >>=-eq-ok (settle_redeem_ledger r.id o db) _ e in
    let (_, _, e2) = >>=-eq-ok (throw_if (not x.0.1) (http_error 409 reserve_mismatch)) _ e1 in
    pay_source-redemptions actor action r x.1 e2 ∙ settle-redemptions r.id o db settled

-- A write to the request that was found under another identifier.
other_request :
    (i j : ℕ) (g : Redemption → Redemption) (db : WalletDb) (q : Redemption)
    → ((x : Redemption) → (g x).id ≡ x.id)
    → find_redemption j db ≡ some q
    → (j == i) ≡ false
    → find_redemption i (set_redemption q.id g db) ≡ find_redemption i db
other_request i j g db q keep there other =
    let own : q.id ≡ j =
      (==_iff q.id j).0 (find_row-test (λ x. x.id == j) db.redemptions q there) in
    find-update_other q.id i g db.redemptions keep (subst (λ k. (k == i) ≡ false) (sym own) other)

module _ (encrypt : Text → Text) (i : ℕ) (r : Redemption) where
  -- The request that an operation names is the one that is over, or another.
  named_request :
      (j : ℕ) (db : WalletDb) (q : Redemption)
      → find_redemption i db ≡ some r
      → find_redemption j db ≡ some q
      → ((j ≡ i) × (q ≡ r)) ⊎ ((j == i) ≡ false)
  named_request j db q found there = elim (Bool-cases (j == i)) [
    | inr other ↦ inr other
    | inl same ↦
        let one : j ≡ i = (==_iff j i).0 same in
        inl (one, some_inj (sym there ∙ (ap (λ k. find_redemption k db) one ∙ found)))
  ]
    where
      some_inj : {x y : Redemption} → some x ≡ some y → x ≡ y
      some_inj e = cc

  pub transition-stays :
      (actor : CurrentUser) (j : ℕ) (input : TransitionInput) (db : WalletDb) {again : Bool}
      {db' : WalletDb}
      → AllBacked db
      → find_redemption i db ≡ some r
      → includes_redemption terminal_statuses r.status ≡ true
      → transition_redemption encrypt actor j input db ≡ ok (again, db')
      → find_redemption i db' ≡ some r
  unfolding transition_redemption lock_redemption_for_change
  transition-stays actor j input db {again} {db'} a found over e =
      elim (Option-cases (find_redemption j db)) [
        | inl absent ↦ absurd (ground arith)
        | inr (q, there) ↦ elim (named_request j db q found there) [
          | inl (one, same) ↦
              let here : find_redemption j db ≡ some r =
                ap (λ k. find_redemption k db) one ∙ found in
              let (_, still, _) = settled_transition encrypt actor j input db r here over e in
              ap (λ (d : WalletDb). find_redemption i d) still ∙ found
          | inr other ↦ elim (Bool-cases again) [
            | inl replay ↦
                ap (λ (d : WalletDb). find_redemption i d)
                  (sym (replay_same encrypt actor j input db replay e))
                ∙ found
            | inr new ↦
                let b = find_row-All (Backed db.ledger) _ db.redemptions q a.backed there in
                let fresh : transition_redemption encrypt actor j input db ≡ ok (false, db') =
                  rw new at e in
                let (d, _, _, _, moved) =
                  transition-parts encrypt actor j input db q b a there fresh in
                ap (find_row (λ x. x.id == i)) (
                  money-redemptions actor input.action q (transitions input.action).reserve _ moved)
                ∙ (other_request i j (moved_to (transitions input.action).target d input actor) db q
                      (λ x. refl) there other
                    ∙ found)
          ]
        ]
      ]

  pub flag-stays :
      (actor : CurrentUser) (j : ℕ) (note : Text) (db : WalletDb) {again : Bool} {db' : WalletDb}
      → find_redemption i db ≡ some r
      → includes_redemption terminal_statuses r.status ≡ true
      → flag_redemption_for_reconciliation encrypt actor j note db ≡ ok (again, db')
      → find_redemption i db' ≡ some r
  unfolding flag_redemption_for_reconciliation lock_redemption_for_change
  flag-stays actor j note db {again} {db'} found over e =
      elim (Option-cases (find_redemption j db)) [
        | inl absent ↦ absurd (ground arith)
        | inr (q, there) ↦ elim (named_request j db q found there) [
          | inl (one, same) ↦ absurd (ground arith)
          | inr other ↦ elim (Bool-cases q.reconciliation_required) [
            | inl before ↦
                let same : db ≡ db' = ground arith in
                ap (λ (d : WalletDb). find_redemption i d) (sym same) ∙ found
            | inr new ↦ elim (outcome_cases (destination_for_change encrypt q recorded db)) [
              | inr (f, refused) ↦ absurd (ground arith)
              | inl (d, destination) ↦
                  let same : set_redemption q.id (flagged note d actor.id) db ≡ db' =
                    ground arith in
                  ap (λ (x : WalletDb). find_redemption i x) (sym same)
                  ∙ (other_request i j (flagged note d actor.id) db q (λ x. refl) there other
                      ∙ found)
            ]
          ]
        ]
      ]

  pub attach-stays :
      (actor : CurrentUser) (j : ℕ) (path : ProofPath) (expected : ℕ) (db : WalletDb)
      {db' : WalletDb}
      → find_redemption i db ≡ some r
      → includes_redemption terminal_statuses r.status ≡ true
      → attach_redemption_proof encrypt actor j path expected db ≡ ok db'
      → find_redemption i db' ≡ some r
  unfolding attach_redemption_proof lock_redemption_for_change
  attach-stays actor j path expected db {db'} found over e =
      elim (Option-cases (find_redemption j db)) [
        | inl absent ↦ absurd (ground arith)
        | inr (q, there) ↦ elim (named_request j db q found there) [
          | inl (one, same) ↦ absurd (ground arith)
          | inr other ↦ elim (outcome_cases (destination_for_change encrypt q recorded db)) [
            | inr (f, refused) ↦ absurd (ground arith)
            | inl (d, destination) ↦
                let same : set_redemption q.id (with_proof path d) db ≡ db' = ground arith in
                ap (λ (x : WalletDb). find_redemption i x) (sym same)
                ∙ (other_request i j (with_proof path d) db q (λ x. refl) there other ∙ found)
          ]
        ]
      ]

  pub request-stays :
      (actor : CurrentUser) (input : RequestInput) (db : WalletDb) {x : Redemption × Bool}
      {db' : WalletDb}
      → AllBacked db
      → find_redemption i db ≡ some r
      → request_redemption encrypt actor input db ≡ ok (x, db')
      → find_redemption i db' ≡ some r
  unfolding request_redemption
  request-stays actor input db {x} {db'} a found e =
      elim (Option-cases (find_request actor.id input.idempotency_key db)) [
        | inr (old, there) ↦
            let same : db ≡ db' = ground arith in
            ap (λ (d : WalletDb). find_redemption i d) (sym same) ∙ found
        | inl new ↦
            let (account, same, _, _) =
              request_new-parts encrypt actor.id input db {x = x} {db' = db'} a (ground arith) in
            ap (λ (d : WalletDb). find_redemption i d) same
            ∙ find-append (λ y. y.id == i) db.redemptions _ r found
      ]
