-- ===== src/Reward/Decisions.antt =====
-- What the reward policy guarantees (lib/reward-policy.ts).
use re_loop.Base.{ℕ, ◌+◌, ◌≤◌, ◌≡◌, ◌↔◌, ◌⊎◌, true, false, some, arith, or_else, ok}
use re_loop.Store.{Text}
use re_loop.Reward.Policy.{
  RewardMode, money_reward, compliance_only, accepted, rejected, available, RewardDecisionInput,
  RewardDecision, decide_reward, CampaignPolicyInput, machine_reward_mode, trip_reward_mode,
  campaign_supports_machine,
}
use re_loop.Reward.Material.{
  MaterialInput, ai_min_confidence, has_taxonomy, accepts, classifier_reported,
}

-- Nothing stands against the deposit.
abbrev pub IsClean : RewardDecisionInput → Type 0
IsClean input =
    (input.weight_valid ≡ true) × (input.type_match ≡ true) × (input.has_anomaly ≡ false)

-- A decision is accepted, and its money available, exactly for a clean deposit; it is rejected
-- exactly for an invalid weight. It pays the whole base amount of a clean money deposit, never more
-- than the base amount, at most half of it unless it is accepted, and nothing under compliance or for
-- a rejected deposit.
pub decide_pays :
    (input : RewardDecisionInput) {d : RewardDecision}
    → decide_reward input ≡ ok d
    → ((d.status ≡ accepted) ↔ IsClean input)
      × ((d.ledger_status ≡ available) ↔ IsClean input)
      × ((d.status ≡ rejected) ↔ (input.weight_valid ≡ false))
      × (IsClean input → input.mode ≡ money_reward → d.amount ≡ input.base_amount)
      × (d.amount ≤ input.base_amount)
      × ((d.status ≡ accepted) ⊎ (d.amount + d.amount ≤ input.base_amount))
      × ((input.mode ≡ compliance_only) ⊎ (d.status ≡ rejected) → d.amount ≡ 0)
unfolding decide_reward
decide_pays input e = (
  (λ h. ground arith, λ h. ground arith),
  (λ h. ground arith, λ h. ground arith),
  (λ h. ground arith, λ h. ground arith),
  λ c m. ground arith,
  ground arith,
  ground arith,
  λ h. ground arith,
)

-- The classifier confirmed the material: it reported a label of the taxonomy with enough confidence.
abbrev pub IsConfirmed : (Text → Text) → (Text → Text) → MaterialInput → Type 0
IsConfirmed trim lower m =
    (label : Text) × (confidence : ℕ) × (classifier_reported trim lower m
      ≡ some (label, confidence))
    × (or_else m.min_confidence ai_min_confidence ≤ confidence)
    × (accepts trim lower m.accepted_labels label ≡ true)
    × (has_taxonomy trim lower m.accepted_labels ≡ true)

-- A campaign that pays money at machines pays none for trips.
pub one_place_pays :
    (c : CampaignPolicyInput) (organization : RewardMode)
    → machine_reward_mode (some c) organization ≡ money_reward
    → trip_reward_mode c ≡ compliance_only
unfolding machine_reward_mode campaign_supports_machine trip_reward_mode
one_place_pays c organization e = ground arith
