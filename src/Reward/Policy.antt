-- ===== src/Reward/Policy.antt =====
-- `decideReward` and the campaign guards of lib/reward-policy.ts. Modes come from the typed schema, so
-- the refusal of an unknown mode has no counterpart.
use re_loop.Base.{
  ℕ, ◌/◌, Bool, true, false, not, ◌||◌, Option, none, some, ltb, if◌then◌else◌, Outcome, ok, err,
}
use re_loop.Store.{Failure, range_error}

pub data RewardMode : Type 0 where
  money_reward compliance_only : RewardMode

pub data RewardStatus : Type 0 where
  accepted review rejected : RewardStatus

pub data RewardLedgerStatus : Type 0 where
  available pending : RewardLedgerStatus

pub data RewardReason : Type 0 where
  weight_invalid anomaly_review type_mismatch all_accepted : RewardReason

pub record RewardDecisionInput : Type 0 where
  pub mode : RewardMode
  pub base_amount : ℕ
  pub weight_valid : Bool
  pub type_match : Bool
  pub has_anomaly : Bool

pub record RewardDecision : Type 0 where
  pub status : RewardStatus
  pub amount : ℕ
  pub ledger_status : RewardLedgerStatus
  pub reason : RewardReason

abbrev pub max_reward_rupiah : ℕ
max_reward_rupiah = 2147483647

abbrev is_compliance : RewardMode → Bool
is_compliance compliance_only = true
is_compliance money_reward = false

-- Half of the base amount, rounded down, is held while a deposit waits for review.
abbrev pub review_hold : ℕ → ℕ
review_hold base = base / 2

abbrev decide_valid : RewardDecisionInput → RewardDecision
decide_valid input = record {
  status = if input.has_anomaly || not input.type_match then review else accepted;
  amount =
      if is_compliance input.mode
      then 0
      else if input.has_anomaly || not input.type_match
      then review_hold input.base_amount
      else input.base_amount;
  ledger_status = if input.has_anomaly || not input.type_match then pending else available;
  reason =
      if input.has_anomaly
      then anomaly_review
      else if not input.type_match
      then type_mismatch
      else all_accepted;
}

abbrev decide_invalid : RewardDecision
decide_invalid = record {
  status = rejected;
  amount = 0;
  ledger_status = pending;
  reason = weight_invalid;
}

unfoldable pub decide_reward : RewardDecisionInput → Outcome Failure RewardDecision
decide_reward input =
    if ltb max_reward_rupiah input.base_amount
    then err range_error
    else if not input.weight_valid
    then ok decide_invalid
    else ok (decide_valid input)

pub data CampaignType : Type 0 where
  machine_deposit event school_program trash_bag tourism_program other_type : CampaignType

pub record CampaignPolicyInput : Type 0 where
  pub campaign_type : CampaignType
  pub reward_mode : RewardMode
  pub supports_machine : Bool

unfoldable pub campaign_supports_machine : CampaignPolicyInput → Bool
campaign_supports_machine c = elim c.campaign_type [
  | machine_deposit ↦ true
  | event ↦ c.supports_machine
  | school_program ↦ c.supports_machine
  | trash_bag ↦ false
  | tourism_program ↦ false
  | other_type ↦ false
]

unfoldable pub machine_reward_mode : Option CampaignPolicyInput → RewardMode → RewardMode
unfolding campaign_supports_machine
machine_reward_mode none organization = organization
machine_reward_mode (some c) organization =
    if campaign_supports_machine c then c.reward_mode else compliance_only

unfoldable pub trip_reward_mode : CampaignPolicyInput → RewardMode
trip_reward_mode c = elim c.campaign_type [
  | trash_bag ↦ c.reward_mode
  | tourism_program ↦ c.reward_mode
  | machine_deposit ↦ compliance_only
  | event ↦ compliance_only
  | school_program ↦ compliance_only
  | other_type ↦ compliance_only
]
