-- ===== src/Store/Rows.antt =====
-- The rows of the money tables and the database.
use re_loop.Base.{ℕ, Bool, Option, List, ℤ}
use re_loop.Store.Keys.{Key, Text}

pub data EntryType : Type 0 where
  earn redeem adjust reverse penalty : EntryType

pub data LedgerStatus : Type 0 where
  pending available redeemed reversed rejected : LedgerStatus

abbrev pub entry_ordinal : EntryType → ℕ
entry_ordinal earn = 0
entry_ordinal redeem = 1
entry_ordinal adjust = 2
entry_ordinal reverse = 3
entry_ordinal penalty = 4

abbrev pub ledger_ordinal : LedgerStatus → ℕ
ledger_ordinal pending = 0
ledger_ordinal available = 1
ledger_ordinal redeemed = 2
ledger_ordinal reversed = 3
ledger_ordinal rejected = 4

-- `RewardFundingAccount`
pub record Account : Type 0 where
  pub id : ℕ
  pub organization_id : ℕ
  pub confirmed : ℤ
  pub held : ℤ
  pub version : ℕ

-- The budget columns of `Campaign`
pub record Campaign : Type 0 where
  pub id : ℕ
  pub organization_id : ℕ
  pub reward_budget : Option ℕ
  pub held : ℤ
  pub spent : ℤ

pub data Source : Type 0 where
  session_source trip_source : ℕ → Source

pub data ReservationStatus : Type 0 where
  active released : ReservationStatus

-- `RewardBudgetReservation`
pub record Reservation : Type 0 where
  pub id : ℕ
  pub business_key : Key
  pub account_id : ℕ
  pub campaign_id : Option ℕ
  pub user_id : ℕ
  pub source : Source
  pub ceiling : ℕ
  pub remaining : ℕ
  pub shortfall : ℕ
  pub campaign_shortfall : ℕ
  pub status : ReservationStatus
  pub late : Bool
  pub released_by : Option ℕ

-- `RewardBudgetCommit`
pub record Commit : Type 0 where
  pub id : ℕ
  pub reservation_id : ℕ
  pub account_id : ℕ
  pub campaign_id : Option ℕ
  pub user_id : ℕ
  pub business_key : Key
  pub held : ℕ
  pub uncovered : ℕ
  pub paid : ℕ
  pub review_pending : Bool

-- `RewardBudgetRelease`
pub record Release : Type 0 where
  pub reservation_id : ℕ
  pub account_id : ℕ
  pub campaign_id : Option ℕ
  pub business_key : Key
  pub amount : ℕ
  pub released_by : Option ℕ

pub data EntryKind : Type 0 where
  confirmed_topup correction payout : EntryKind

abbrev pub kind_ordinal : EntryKind → ℕ
kind_ordinal confirmed_topup = 0
kind_ordinal correction = 1
kind_ordinal payout = 2

-- `FundingEntry`; a payout's reference is its redemption
pub record FundingEntry : Type 0 where
  pub account_id : ℕ
  pub business_key : Key
  pub kind : EntryKind
  pub amount : ℤ
  pub redemption_reference : Option ℕ
  pub reference : Text
  pub note : Text
  pub verified_by : Option ℕ

-- The tables of lib/reward-funding.ts. `next_id` is larger than every identifier that was given out.
pub record FundingDb : Type 0 where
  pub accounts : List Account
  pub campaigns : List Campaign
  pub reservations : List Reservation
  pub commits : List Commit
  pub releases : List Release
  pub entries : List FundingEntry
  pub next_id : ℕ
