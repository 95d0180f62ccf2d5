-- ===== src/Wallet/Transition.antt =====
-- `transitionRedemption`, `flagRedemptionForReconciliation` and `attachRedemptionProof` of
-- lib/wallet-service.ts, without the audit and the notification that follow a commit.
mod Rules
pub use Rules.*
unfoldable pub use Rules.{
  transitions, assert_may_transition, lock_redemption_for_change, assert_identical_replay,
}
use re_loop.Base.{
  ℕ, Bool, true, false, not, ◌&&◌, ◌||◌, Option, none, some, List, [], ◌∷◌, any_of, is_some, ◌==◌,
  if◌then◌else◌, find_row, Outcome, ok, err, ◌>>=◌, ◌>>◌, throw_if, or_throw,
}
use re_loop.Store.{
  Text, text_eq, Failure, http_error, range_error, LedgerStatus, pending, ledger_ordinal,
  redemption_not_found, redemption_status_changed, redemption_invalid_transition,
  redemption_owner_changed, redemption_proof_required, redemption_destination_unavailable,
  redemption_reconciliation_note_required, redemption_proof_closed,
  redemption_replay_reference_conflict, redemption_replay_note_conflict,
  redemption_reconciliation_note_conflict, reserve_mismatch, not_your_redemption,
  action_not_allowed, role_denied, update_row,
}
use re_loop.Pickup.{Role, user, superadmin, role_ordinal}
use re_loop.Funding.{settle_payout_funding}
use re_loop.Wallet.Rows.{
  LedgerRow, Redemption, RedemptionStatus, requested, approved, processing, success, failed,
  reversed_status, redemption_ordinal, Destination, legacy_account_fallback, PayoutAccount,
  ProofPath, WalletDb,
}
use re_loop.Wallet.Reserve.{
  expected_reserve_status, has_status, load_redeem_reserve, find_redemption, RedeemOutcome,
  success_outcome, failed_outcome, settle_redeem_ledger,
}
use re_loop.Wallet.Request.{
  CurrentUser, find_payout_account, destination_snapshot, unavailable_destination,
}

abbrev pub set_redemption : ℕ → (Redemption → Redemption) → WalletDb → WalletDb
set_redemption i g db = record db { redemptions = update_row (λ r. r.id == i) g db.redemptions }

abbrev pub moved_to :
    RedemptionStatus → Option Destination → TransitionInput → CurrentUser → Redemption → Redemption
moved_to s destination input actor r = record r {
  status = s;
  destination = destination;
  note = keep input.note r.note;
  provider_reference = keep input.provider_reference r.provider_reference;
  processed_by = operator_of actor r.processed_by;
  reconciliation_required =
      r.reconciliation_required && not (includes_redemption terminal_statuses s);
}

abbrev is_required : DestinationMode → Bool
is_required required = true
is_required _ = false

-- A success debits the funded sources; a failure or a cancel leaves the obligation funded.
unfoldable pub pay_source :
    CurrentUser → RedemptionAction → Redemption → WalletDb → Outcome Failure WalletDb
pay_source actor action r db =
    if is_success action
    then settle_payout_funding r.id r.user_id r.amount (some actor.id) db.funding
      >>= (λ x. ok (record db { funding = x.1 }))
    else ok db

-- The reserve and the funding that follow the new status.
unfoldable pub settle_money :
    CurrentUser
    → RedemptionAction
    → Redemption
    → Option RedeemOutcome
    → WalletDb
    → Outcome Failure WalletDb
settle_money actor action r none db = ok db
settle_money actor action r (some outcome) db = do
  ((_, changed), db') ← settle_redeem_ledger r.id outcome db
  throw_if (not changed) (http_error 409 reserve_mismatch)
  pay_source actor action r db'

abbrev pub flagged : Text → Option Destination → ℕ → Redemption → Redemption
flagged note destination by r = record r {
  destination = destination;
  reconciliation_required = true;
  reconciliation_note = some note;
  processed_by = some by;
}

abbrev pub with_proof : ProofPath → Option Destination → Redemption → Redemption
with_proof p destination r = record r { destination = destination; manual_transfer_proof = some p }

module _ (encrypt : Text → Text) where
  abbrev live_account : Redemption → WalletDb → Option PayoutAccount
  live_account r db = elim r.payout_account_id [
    | none ↦ none
    | some i ↦ elim (find_payout_account i r.user_id db) [
      | none ↦ none
      | some a ↦ elim a.identifier [ [] ↦ none | c ∷ t ↦ some a ]
    ]
  ]

  -- `destinationForChange`: the destination after the change.
  unfoldable pub destination_for_change :
      Redemption → DestinationMode → WalletDb → Outcome Failure (Option Destination)
  destination_for_change r unneeded db = ok r.destination
  destination_for_change r mode db = elim r.destination [
    | some d ↦ ok (some d)
    | none ↦ elim (live_account r db) [
      | some a ↦ ok (some (destination_snapshot encrypt a legacy_account_fallback))
      | none ↦
          throw_if (is_required mode) (http_error 409 redemption_destination_unavailable)
          >> ok (some unavailable_destination)
    ]
  ]

  unfoldable pub transition_new :
      CurrentUser → TransitionInput → Redemption → LedgerRow → WalletDb → Outcome Failure WalletDb
  transition_new actor input r reserve db = do
    let rule = transitions input.action
    throw_if (not (includes_redemption rule.from r.status)) (not_from r.status)
    throw_if (not (has_status pending reserve)) (http_error 409 reserve_mismatch)
    throw_if
        (is_success input.action
          && (not (is_some input.provider_reference) && not (has_own_proof r)))
        (http_error 422 redemption_proof_required)
    throw_if (is_fail input.action && (r.reconciliation_required && not (is_some input.note)))
        (http_error 422 redemption_reconciliation_note_required)
    destination ← destination_for_change r rule.destination db
    settle_money actor input.action r rule.reserve
        (set_redemption r.id (moved_to rule.target destination input actor) db)

  -- Whether the request already had the outcome, and the tables.
  unfoldable pub transition_redemption :
      CurrentUser → ℕ → TransitionInput → WalletDb → Outcome Failure (Bool × WalletDb)
  transition_redemption actor i input db = do
    assert_may_transition actor input.action
    r ← lock_redemption_for_change actor i none db
    reserve ← load_redeem_reserve r db
    if status_eq r.status (transitions input.action).target
        then throw_if (not (has_status (expected_reserve_status r.status) reserve))
            (http_error 409 reserve_mismatch)
          >> assert_identical_replay r input
          >> ok (true, db)
        else transition_new actor input r reserve db >>= (λ db'. ok (false, db'))

  -- `flagRedemptionForReconciliation`; the note comes trimmed and non-empty.
  unfoldable pub flag_redemption_for_reconciliation :
      CurrentUser → ℕ → Text → WalletDb → Outcome Failure (Bool × WalletDb)
  flag_redemption_for_reconciliation actor i note db = do
    throw_if (not (is_role superadmin actor)) (http_error 403 role_denied)
    r ← lock_redemption_for_change actor i none db
    reserve ← load_redeem_reserve r db
    throw_if (not (status_eq r.status processing)) (not_from r.status)
    throw_if (not (has_status pending reserve)) (http_error 409 reserve_mismatch)
    if r.reconciliation_required
        then throw_if (not (text_opt_eq note r.reconciliation_note))
            (http_error 409 redemption_reconciliation_note_conflict)
          >> ok (true, db)
        else destination_for_change r recorded db
          >>= (λ d. ok (false, set_redemption r.id (flagged note d actor.id) db))

  unfoldable pub attach_redemption_proof :
      CurrentUser → ℕ → ProofPath → ℕ → WalletDb → Outcome Failure WalletDb
  attach_redemption_proof actor i path expected db = do
    throw_if (not (is_role superadmin actor)) (http_error 403 role_denied)
    throw_if (not (path.folder == i)) range_error
    r ← lock_redemption_for_change actor i (some expected) db
    throw_if (includes_redemption terminal_statuses r.status)
        (http_error 409 redemption_proof_closed)
    destination ← destination_for_change r recorded db
    ok (set_redemption r.id (with_proof path destination) db)
