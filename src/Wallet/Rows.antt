-- ===== src/Wallet/Rows.antt =====
-- The rows of lib/ledger.ts, lib/wallet-service.ts and lib/payout-destination.ts, and the tables that
-- a wallet transaction works on.
use re_loop.Base.{ℕ, Bool, Option, List, ℤ}
use re_loop.Store.{EntryType, LedgerStatus, Text, Key, FundingDb}

pub data Reference : Type 0 where
  redemption_reference deposit_item_reference trip_reference : ℕ → Reference

-- `RewardLedger`; the amount of a debit is negative.
pub record LedgerRow : Type 0 where
  pub id : ℕ
  pub user_id : ℕ
  pub entry_type : EntryType
  pub amount : ℤ
  pub status : LedgerStatus
  pub reference : Option Reference
  pub business_key : Option Key

-- `RedemptionStatus`; `reversed_status` is REVERSED, which `LedgerStatus` also has.
pub data RedemptionStatus : Type 0 where
  requested approved processing success failed reversed_status : RedemptionStatus

abbrev pub redemption_ordinal : RedemptionStatus → ℕ
redemption_ordinal requested = 0
redemption_ordinal approved = 1
redemption_ordinal processing = 2
redemption_ordinal success = 3
redemption_ordinal failed = 4
redemption_ordinal reversed_status = 5

pub data DestinationSource : Type 0 where
  request_snapshot legacy_account_fallback legacy_unavailable : DestinationSource

-- The destination columns; identifier and name are ciphertext.
pub record Destination : Type 0 where
  pub source : DestinationSource
  pub provider : Option ℕ
  pub identifier : Option Text
  pub name : Option Text

-- A proof is stored under the identifier of a redemption.
pub record ProofPath : Type 0 where
  pub folder : ℕ
  pub file : Text

pub record Redemption : Type 0 where
  pub id : ℕ
  pub user_id : ℕ
  pub payout_account_id : Option ℕ
  pub amount : ℕ
  pub status : RedemptionStatus
  pub provider_reference : Option Text
  pub manual_transfer_proof : Option ProofPath
  pub note : Option Text
  pub processed_by : Option ℕ
  pub idempotency_key : Text
  pub request_hash : Option (ℕ × ℕ)
  pub destination : Option Destination
  pub reconciliation_required : Bool
  pub reconciliation_note : Option Text

pub record PayoutAccount : Type 0 where
  pub id : ℕ
  pub user_id : ℕ
  pub disabled : Bool
  pub provider : ℕ
  pub identifier : Text
  pub name : Option Text

-- `RewardReconciliationCase`
pub record DebitCase : Type 0 where
  pub id : ℕ
  pub business_key : Key
  pub user_id : ℕ
  pub deposit_item_id : Option ℕ
  pub amount : ℕ
  pub is_open : Bool
  pub already_paid_out : Bool

pub record WalletDb : Type 0 where
  pub ledger : List LedgerRow
  pub redemptions : List Redemption
  pub payout_accounts : List PayoutAccount
  pub cases : List DebitCase
  pub funding : FundingDb
  pub min_redemption : ℕ
  pub next_id : ℕ
