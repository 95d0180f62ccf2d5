-- ===== src/Deposit/Acceptance.antt =====
-- The pricing of an accepted item from the admission snapshot of its session (`handleAcceptance` of
-- lib/machine-events/acceptance.ts). A session without a snapshot, priced from the live
-- configuration, is left out; so are the writes that follow the decision.
use re_loop.Base.{
  ℕ, Bool, true, false, not, ◌&&◌, ◌||◌, Option, none, some, ltb, ◌==◌, if◌then◌else◌, is_some,
  find_row, Outcome, ok, ◌>>=◌,
}
use re_loop.Store.{Text, Failure}
use re_loop.Machine.{
  SessionStatus, in_review, SensorSequencePayload, SensorAnomaly, validate_sensor_sequence,
}
use re_loop.Reward.{
  Doubles, per_item, per_kg, validate_weight, WeightProblem, MaterialInput, MaterialReason,
  verify_material, RewardDecisionInput, RewardDecision, decide_reward, max_reward_rupiah,
  compute_reward_amount, compute_weight_based_reward_amount, RewardMode, money_reward,
  compliance_only, RewardStatus, accepted, review, rejected,
}
use re_loop.Deposit.Policy.{PolicySnapshot, PolicyWasteType, bps_to_multiplier}

-- What the handler reads of the item, its waste type and its event.
pub record AcceptanceInput : Type 0 where
  pub waste_type_id : ℕ
  pub type_min_weight : Option ℕ
  pub type_max_weight : Option ℕ
  pub is_unknown_type : Bool
  pub quantity : ℕ
  pub weight : Option ℕ
  pub sensor : Option SensorSequencePayload
  pub fraud_flag : Bool
  pub reported_after_end : Bool
  pub material : MaterialInput
  pub session_status : SessionStatus
  pub ended_at : ℕ
  -- `none` for an event that is not there
  pub occurred_at : Option ℕ

abbrev pub is_late : AcceptanceInput → Bool
is_late x = x.reported_after_end || elim x.occurred_at [ none ↦ true | some at ↦ ltb x.ended_at at ]

abbrev pub snapshot_type : PolicySnapshot → ℕ → Option PolicyWasteType
snapshot_type p id = find_row (λ t. t.id == id) p.waste_types

-- The price list has no entry that may price the item.
abbrev pub is_unpriceable : PolicySnapshot → AcceptanceInput → Bool
is_unpriceable p x = x.is_unknown_type || not (is_some (snapshot_type p x.waste_type_id))

-- `rate?.minWeightGrams ?? item.wasteType.minWeightGrams`
abbrev pub bound_of :
    Bool → (PolicyWasteType → Option ℕ) → Option PolicyWasteType → Option ℕ → Option ℕ
bound_of true f t other = other
bound_of false f none other = other
bound_of false f (some t) other = elim (f t) [ some n ↦ some n | none ↦ other ]

abbrev pub checked_weight : PolicySnapshot → AcceptanceInput → Option WeightProblem
checked_weight p x =
    let priced = snapshot_type p x.waste_type_id in
    let skip = is_unpriceable p x in
    validate_weight x.weight (bound_of skip (λ t. t.min_weight) priced x.type_min_weight)
      (bound_of skip (λ t. t.max_weight) priced x.type_max_weight)

-- The amount at the recorded rate.
unfoldable pub computed_amount : Doubles → PolicySnapshot → PolicyWasteType → AcceptanceInput → ℕ
unfolding compute_reward_amount compute_weight_based_reward_amount bps_to_multiplier
computed_amount d p t x = elim t.unit [
  | per_kg ↦
      compute_weight_based_reward_amount d t.reward_per_unit x.weight
        (bps_to_multiplier d p.multiplier_bps)
  | per_item ↦
      compute_reward_amount d t.reward_per_unit x.quantity (bps_to_multiplier d p.multiplier_bps)
]

-- The price of the item, when the list has one for it.
unfoldable pub list_price : Doubles → PolicySnapshot → AcceptanceInput → Option ℕ
unfolding computed_amount
list_price d p x = if x.is_unknown_type then none else elim (snapshot_type p x.waste_type_id) [
  | none ↦ none
  | some t ↦ some (computed_amount d p t x)
]

abbrev pub out_of_range : Option ℕ → Bool
out_of_range none = false
out_of_range (some n) = ltb max_reward_rupiah n

abbrev pub base_amount : Option ℕ → ℕ
base_amount none = 0
base_amount (some n) = if ltb max_reward_rupiah n then 0 else n

abbrev is_in_review : SessionStatus → Bool
is_in_review in_review = true
is_in_review _ = false

abbrev pub has_anomaly : Option ℕ → AcceptanceInput → Bool
has_anomaly price x =
    is_some (validate_sensor_sequence x.sensor)
    || (x.fraud_flag || (is_in_review x.session_status || (out_of_range price || is_late x)))

abbrev pub acceptance_input :
    (Text → Text) → (Text → Text) → Doubles → PolicySnapshot → AcceptanceInput → RewardDecisionInput
acceptance_input trim lower d p x =
    let price = list_price d p x in
    let skip = is_unpriceable p x in
    record {
      mode = p.mode;
      base_amount = base_amount price;
      weight_valid = skip || not (is_some (checked_weight p x));
      type_match = not skip && (verify_material trim lower x.material).type_match;
      has_anomaly = has_anomaly price x;
    }

pub data AcceptanceReason : Type 0 where
  by_policy weight_problem unknown_waste_type type_not_in_snapshot : AcceptanceReason
  session_closed session_timeout reward_out_of_range anomaly_review : AcceptanceReason
  sensor_reason : SensorAnomaly → AcceptanceReason
  material_reason : MaterialReason → AcceptanceReason

-- The reason of a held item.
unfoldable pub review_reason :
    (Text → Text) → (Text → Text) → PolicySnapshot → Option ℕ → AcceptanceInput → AcceptanceReason
review_reason trim lower p price x =
    if x.is_unknown_type
    then unknown_waste_type
    else if not (is_some (snapshot_type p x.waste_type_id))
    then type_not_in_snapshot
    else if is_late x
    then (if x.reported_after_end then session_closed else session_timeout)
    else elim (validate_sensor_sequence x.sensor) [
      | some a ↦ sensor_reason a
      | none ↦
          if out_of_range price
          then reward_out_of_range
          else if has_anomaly price x
          then anomaly_review
          else material_reason (verify_material trim lower x.material).reason
    ]

-- What is written to the item and committed against the budget.
pub record Acceptance : Type 0 where
  pub decision : RewardDecision
  pub reason : AcceptanceReason
  pub rate_id : Option ℕ
  pub base_reward : ℕ
  -- the ceiling of the commit: the whole base amount while a review may still approve it
  pub funded : ℕ

abbrev pub money_only : RewardMode → ℕ → ℕ
money_only money_reward n = n
money_only compliance_only n = 0

abbrev pub rate_of : Bool → Option PolicyWasteType → Option ℕ
rate_of true t = none
rate_of false none = none
rate_of false (some t) = t.rate_id

abbrev reason_of : RewardStatus → AcceptanceReason → AcceptanceReason
reason_of accepted held = by_policy
reason_of rejected held = weight_problem
reason_of review held = held

abbrev pub funded_of : RewardStatus → ℕ → ℕ → ℕ
funded_of review base amount = base
funded_of accepted base amount = amount
funded_of rejected base amount = amount

unfoldable pub price_acceptance :
    (Text → Text)
    → (Text → Text)
    → Doubles
    → PolicySnapshot
    → AcceptanceInput
    → Outcome Failure Acceptance
unfolding decide_reward list_price review_reason validate_sensor_sequence
price_acceptance trim lower d p x = do
  let price = list_price d p x
  decision ← decide_reward (acceptance_input trim lower d p x)
  ok (record {
    decision = decision;
    reason = reason_of decision.status (review_reason trim lower p price x);
    rate_id = rate_of (is_unpriceable p x) (snapshot_type p x.waste_type_id);
    base_reward = money_only p.mode (base_amount price);
    funded = funded_of decision.status (money_only p.mode (base_amount price)) decision.amount;
  })
