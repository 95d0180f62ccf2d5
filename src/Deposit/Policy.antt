-- ===== src/Deposit/Policy.antt =====
-- lib/session-policy.ts: the admission snapshot of a session. The hash of its canonical form is a
-- parameter, and a stored column that does not parse is `none`.
use re_loop.Base.{
  ℕ, Bool, Option, none, some, List, [], ◌∷◌, map, ltb, if◌then◌else◌, ℤ, pos_part, pos, or_else,
}
use re_loop.Reward.{
  Double, Doubles, WasteUnit, per_item, per_kg, RewardRate, RateScope, resolve_reward_rate,
  compute_reward_amount, compute_weight_based_reward_amount, sort_rows, RewardMode, money_reward,
  compliance_only, CampaignPolicyInput, campaign_supports_machine, machine_reward_mode,
}

pub record PolicyWasteType : Type 0 where
  pub id : ℕ
  pub unit : WasteUnit
  pub reward_per_unit : ℕ
  pub max_reward : Option ℕ
  pub rate_id : Option ℕ
  pub min_weight : Option ℕ
  pub max_weight : Option ℕ

pub record PolicySnapshot : Type 0 where
  pub mode : RewardMode
  pub multiplier_bps : ℕ
  pub ceiling : Option ℕ
  pub max_items : Option ℕ
  pub captured_at : ℕ
  pub waste_types : List PolicyWasteType

-- One row of the machine's view: id, unit, reward per unit, largest reward.
abbrev pub ViewRow : Type 0
ViewRow = ℕ × WasteUnit × ℕ × Option ℕ

pub record MachinePolicyView : Type 0 where
  pub mode : RewardMode
  pub multiplier_bps : ℕ
  pub waste_types : List ViewRow

-- What is hashed.
pub record CanonicalPolicy : Type 0 where
  pub mode : RewardMode
  pub multiplier_bps : ℕ
  pub rows : List ViewRow

abbrev pub bps : ℕ
bps = 10000

unfoldable pub multiplier_to_bps : Doubles → Option Double → ℕ
multiplier_to_bps d none = d.round (d.times (d.of_nat 1) (d.of_nat bps))
multiplier_to_bps d (some m) =
    d.round (d.times (if d.is_positive m then m else d.of_nat 1) (d.of_nat bps))

unfoldable pub bps_to_multiplier : Doubles → ℕ → Double
bps_to_multiplier d multiplier_bps = d.divide (d.of_nat multiplier_bps) (d.of_nat bps)

-- The most that one item of a type can be paid.
unfoldable pub policy_item_cap : Doubles → WasteUnit → ℕ → Option ℕ → ℕ → Option ℕ
unfolding bps_to_multiplier compute_reward_amount compute_weight_based_reward_amount
policy_item_cap d per_kg rate none multiplier_bps = none
policy_item_cap d per_kg rate (some w) multiplier_bps =
    some (compute_weight_based_reward_amount d rate (some w) (bps_to_multiplier d multiplier_bps))
policy_item_cap d per_item rate max_weight multiplier_bps =
    some (compute_reward_amount d rate 1 (bps_to_multiplier d multiplier_bps))

abbrev pub view_row : PolicyWasteType → ViewRow
view_row t = (t.id, t.unit, t.reward_per_unit, t.max_reward)

unfoldable pub machine_policy_view : PolicySnapshot → MachinePolicyView
machine_policy_view p = record {
  mode = p.mode;
  multiplier_bps = p.multiplier_bps;
  waste_types = map view_row p.waste_types;
}

abbrev earlier_row : ViewRow → ViewRow → Bool
earlier_row a b = ltb a.0 b.0

abbrev earlier_type : PolicyWasteType → PolicyWasteType → Bool
earlier_type a b = ltb a.id b.id

-- `canonicalSessionPolicy` of a view, and of a snapshot: both sort, then keep four columns.
unfoldable pub canonical_view : MachinePolicyView → CanonicalPolicy
unfolding sort_rows
canonical_view v = record {
  mode = v.mode;
  multiplier_bps = v.multiplier_bps;
  rows = sort_rows earlier_row v.waste_types;
}

unfoldable pub canonical_session_policy : PolicySnapshot → CanonicalPolicy
unfolding sort_rows
canonical_session_policy p = record {
  mode = p.mode;
  multiplier_bps = p.multiplier_bps;
  rows = map view_row (sort_rows earlier_type p.waste_types);
}

-- The running maximum; `none` once a type is unbounded.
unfoldable pub largest_cap : ℕ → List PolicyWasteType → Option ℕ
largest_cap best [] = some best
largest_cap best (t ∷ l) = elim t.max_reward [
  | none ↦ none
  | some cap ↦ largest_cap (if ltb best cap then cap else best) l
]

unfoldable pub snapshot_max_item_cap : Option PolicySnapshot → Option ℕ
unfolding largest_cap
snapshot_max_item_cap none = none
snapshot_max_item_cap (some p) = elim p.mode [
  | money_reward ↦ largest_cap 0 p.waste_types
  | compliance_only ↦ some 0
]

pub record SessionLimits : Type 0 where
  pub max_reward : Option ℕ
  pub max_items : Option ℕ

unfoldable pub session_limits : Option PolicySnapshot → SessionLimits
session_limits none = record { max_reward = none; max_items = none }
session_limits (some p) = record {
  max_reward = elim p.mode [ money_reward ↦ p.ceiling | compliance_only ↦ none ];
  max_items = p.max_items;
}

-- A waste type of the machine, as `buildSessionPolicy` reads it.
pub record WasteType : Type 0 where
  pub id : ℕ
  pub unit : WasteUnit
  pub default_reward : Option ℤ
  pub min_weight : Option ℕ
  pub max_weight : Option ℕ

-- The campaign columns that a session reads.
pub record SessionCampaign : Type 0 where
  pub id : ℕ
  pub policy : CampaignPolicyInput
  pub multiplier : Option Double

unfoldable pub supporting : Option SessionCampaign → Option SessionCampaign
unfolding campaign_supports_machine
supporting none = none
supporting (some c) = if campaign_supports_machine c.policy then some c else none

abbrev pub policy_of : Option SessionCampaign → Option CampaignPolicyInput
policy_of none = none
policy_of (some c) = some c.policy

abbrev pub campaign_id_of : Option SessionCampaign → Option ℕ
campaign_id_of none = none
campaign_id_of (some c) = some c.id

abbrev pub multiplier_of : Option SessionCampaign → Option Double
multiplier_of none = none
multiplier_of (some c) = c.multiplier

-- `rate?.x ?? y`
abbrev from_rate {ℓ} :
    {A : Type ℓ} → (RewardRate → Option A) → Option RewardRate → Option A → Option A
from_rate f none other = other
from_rate f (some r) other = elim (f r) [ some a ↦ some a | none ↦ other ]

abbrev rate_unit : Option RewardRate → WasteUnit → WasteUnit
rate_unit none unit = unit
rate_unit (some r) unit = r.unit

-- `Math.max(0, rate?.pointsPerItem ?? type.defaultRewardPerItem ?? 0)`, zero without money.
abbrev pub unit_reward : RewardMode → Option RewardRate → Option ℤ → ℕ
unit_reward compliance_only rate default = 0
unit_reward money_reward rate default =
    pos_part (or_else (from_rate (λ r. some r.points_per_item) rate default) (pos 0))

unfoldable pub price_type :
    Doubles → RewardMode → ℕ → WasteType → Option RewardRate → PolicyWasteType
unfolding policy_item_cap
price_type d mode multiplier_bps type rate =
    let unit = rate_unit rate type.unit in
    let reward = unit_reward mode rate type.default_reward in
    let max_weight = from_rate (λ r. r.max_weight) rate type.max_weight in
    record {
      id = type.id;
      unit = unit;
      reward_per_unit = reward;
      max_reward = policy_item_cap d unit reward max_weight multiplier_bps;
      rate_id = from_rate (λ r. some r.id) rate none;
      min_weight = from_rate (λ r. r.min_weight) rate type.min_weight;
      max_weight = max_weight;
    }

pub record BuildPolicyInput : Type 0 where
  pub organization_id : ℕ
  pub organization_mode : RewardMode
  pub max_items_per_session : Option ℕ
  pub waste_types : List WasteType
  pub campaign : Option SessionCampaign
  pub ceiling : Option ℕ

abbrev positive : Option ℕ → Option ℕ
positive none = none
positive (some n) = if ltb 0 n then some n else none

-- The loop over the waste types of the machine.
unfoldable pub price_types :
    Doubles
    → RewardMode
    → ℕ
    → ℕ
    → Option ℕ
    → ℕ
    → List RewardRate
    → List WasteType
    → List PolicyWasteType
unfolding price_type resolve_reward_rate
price_types d mode factor organization campaign now rates [] = []
price_types d mode factor organization campaign now rates (t ∷ l) =
    let scope : RateScope = record {
      organization_id = organization;
      campaign_id = campaign;
      waste_type_id = t.id;
    } in
    price_type d mode factor t (resolve_reward_rate scope now rates)
    ∷ price_types d mode factor organization campaign now rates l

unfoldable pub build_session_policy :
    Doubles → BuildPolicyInput → ℕ → List RewardRate → PolicySnapshot
unfolding price_types supporting multiplier_to_bps machine_reward_mode sort_rows
build_session_policy d input now rates =
    let mode = machine_reward_mode (policy_of input.campaign) input.organization_mode in
    let machine_campaign = supporting input.campaign in
    let factor = multiplier_to_bps d (multiplier_of machine_campaign) in
    record {
      mode = mode;
      multiplier_bps = factor;
      ceiling = elim mode [ money_reward ↦ input.ceiling | compliance_only ↦ none ];
      max_items = positive input.max_items_per_session;
      captured_at = now;
      waste_types = sort_rows earlier_type (
          price_types d mode factor input.organization_id (campaign_id_of machine_campaign) now
            rates input.waste_types);
    }
