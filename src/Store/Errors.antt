-- ===== src/Store/Errors.antt =====
-- What the money code throws: `HttpError` with a status and a message (named by its constant in the
-- source), and the `RangeError` or plain `Error` of a caller that breaks a contract.
use re_loop.Base.{ℕ}

pub data Message : Type 0 where
  reserve_missing reserve_mismatch redemption_not_found redemption_status_changed : Message
  redemption_invalid_transition redemption_owner_changed redemption_proof_required : Message
  redemption_destination_unavailable redemption_reconciliation_note_required : Message
  redemption_proof_closed redemption_replay_reference_conflict : Message
  redemption_replay_note_conflict redemption_reconciliation_note_conflict : Message
  redemption_key_conflict not_your_redemption action_not_allowed role_denied : Message
  payout_account_not_found payout_account_disabled below_minimum insufficient_balance : Message
  insufficient_balance_held invalid_input : Message
  reward_key_conflict reward_case_not_found : Message
  funding_insufficient campaign_budget_insufficient campaign_budget_not_configured : Message
  funding_key_conflict funding_reference_conflict funding_reference_required : Message
  funding_note_required funding_amount_invalid reservation_not_found : Message
  reservation_source_still_open reservation_release_reason_required : Message
  organization_not_found campaign_not_of_organization record_not_found : Message
  trip_reward_too_large : Message
  machine_not_found machine_changed qr_token_invalid machine_not_accepting : Message
  organization_inactive machine_without_waste_types campaign_not_for_machine : Message
  campaign_not_valid campaign_not_eligible machine_in_use machine_unavailable : Message
  session_not_found not_your_session item_still_processing session_cannot_end : Message
  account_inactive current_code_required wrong_proof wrong_password : Message

pub data Failure : Type 0 where
  http_error : ℕ → Message → Failure
  range_error : Failure
  -- `findUniqueOrThrow` on a row that is not there
  missing_row : Failure
  -- `InvalidSessionTransitionError`
  invalid_session_transition : Failure
