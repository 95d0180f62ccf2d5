-- ===== src/Reward/Rates.antt =====
-- lib/reward.ts: reward rates, their windows and scopes, the selection of a rate, and the amounts.
-- Instants are milliseconds since the epoch. JavaScript numbers with fractions are doubles, given by
-- their bit patterns; the operations on them are a parameter.
use re_loop.Base.{
  ℕ, Bool, true, false, not, ◌&&◌, ◌||◌, Option, none, some, List, [], ◌∷◌, ℤ, ltb, leb, ◌==◌,
  opt_eq, is_some, or_else, if◌then◌else◌, where_rows,
}

abbrev pub Double : Type 0
Double = ℕ

-- The operations that the source uses on doubles that are not negative.
pub record Doubles : Type 0 where
  pub of_nat : ℕ → Double
  pub times : Double → Double → Double
  pub divide : Double → Double → Double
  pub is_positive : Double → Bool
  -- `Math.round`
  pub round : Double → ℕ
  -- `Math.floor`
  pub floor : Double → ℕ

pub data WeightProblem : Type 0 where
  weight_missing weight_below_min weight_above_max : WeightProblem

abbrev below : ℕ → Option ℕ → Bool
below w none = false
below w (some low) = ltb w low

abbrev above : ℕ → Option ℕ → Bool
above w none = false
above w (some high) = ltb high w

-- `validateWeight`: `none` for a valid weight, else the reason.
unfoldable pub validate_weight : Option ℕ → Option ℕ → Option ℕ → Option WeightProblem
validate_weight none low high = some weight_missing
validate_weight (some w) low high =
    if below w low
    then some weight_below_min
    else if above w high
    then some weight_above_max
    else none

pub data WasteUnit : Type 0 where
  per_item per_kg : WasteUnit

pub record RewardRate : Type 0 where
  pub id : ℕ
  pub organization_id : Option ℕ
  pub campaign_id : Option ℕ
  pub waste_type_id : ℕ
  pub unit : WasteUnit
  pub points_per_item : ℤ
  pub min_weight : Option ℕ
  pub max_weight : Option ℕ
  pub effective_from : ℕ
  pub effective_to : Option ℕ
  pub enabled : Bool

pub record RateScope : Type 0 where
  pub organization_id : ℕ
  pub campaign_id : Option ℕ
  pub waste_type_id : ℕ

abbrev still_open : Option ℕ → ℕ → Bool
still_open none at = true
still_open (some to) at = ltb at to

-- The half-open window [effective_from, effective_to).
unfoldable pub rate_window_contains : RewardRate → ℕ → Bool
rate_window_contains r at = leb r.effective_from at && still_open r.effective_to at

unfoldable pub in_rate_window : RewardRate → ℕ → Bool
unfolding rate_window_contains
in_rate_window r at = r.enabled && rate_window_contains r at

abbrev of_campaign : Option ℕ → RewardRate → Bool
of_campaign none r = false
of_campaign (some c) r = opt_eq r.campaign_id (some c)

unfoldable pub rate_priority : RateScope → RewardRate → ℕ
rate_priority scope r =
    if of_campaign scope.campaign_id r
    then 0
    else if opt_eq r.organization_id (some scope.organization_id) && not (is_some r.campaign_id)
    then 1
    else if not (is_some r.organization_id) && not (is_some r.campaign_id)
    then 2
    else 99

-- The disjunction `scopeOr`.
unfoldable pub in_scope : RateScope → RewardRate → Bool
in_scope scope r =
    of_campaign scope.campaign_id r
    || ((opt_eq r.organization_id (some scope.organization_id) && not (is_some r.campaign_id))
        || (not (is_some r.organization_id) && not (is_some r.campaign_id)))

unfoldable pub usable_at : Bool → ℕ → RewardRate → Bool
unfolding in_rate_window rate_window_contains
usable_at require_active at r =
    if require_active then in_rate_window r at else rate_window_contains r at

-- The conditions of the query.
unfoldable pub is_candidate : RateScope → ℕ → Bool → RewardRate → Bool
unfolding usable_at in_scope
is_candidate scope at require_active r =
    (r.waste_type_id == scope.waste_type_id) && (usable_at require_active at r && in_scope scope r)

-- The comparator: `a` comes strictly before `b`.
unfoldable pub comes_before : RateScope → RewardRate → RewardRate → Bool
comes_before scope a b =
    ltb (rate_priority scope a) (rate_priority scope b)
    || ((rate_priority scope a == rate_priority scope b) && ltb b.effective_from a.effective_from)

unfoldable pub newer : RewardRate → RewardRate → Bool
newer a b = ltb b.effective_from a.effective_from

-- A stable sort by a strict comparison: `Array.prototype.sort`, and `orderBy`.
module _ {A : Type 0} (before : A → A → Bool) where
  unfoldable pub insert_sorted : A → List A → List A
  insert_sorted x [] = x ∷ []
  insert_sorted x (y ∷ l) =
      let later = y ∷ insert_sorted x l in if before y x then later else x ∷ y ∷ l

  unfoldable pub sort_rows : List A → List A
  unfolding insert_sorted
  sort_rows [] = []
  sort_rows (x ∷ l) = insert_sorted x (sort_rows l)

abbrev pub first_row {ℓ} : {A : Type ℓ} → List A → Option A
first_row [] = none
first_row (x ∷ l) = some x

unfoldable pub select_reward_rate : RateScope → ℕ → Bool → List RewardRate → Option RewardRate
unfolding sort_rows is_candidate comes_before usable_at newer
select_reward_rate scope at require_active rates = first_row (
    sort_rows (comes_before scope) (
      where_rows (usable_at require_active at)
        (sort_rows newer (where_rows (is_candidate scope at require_active) rates))))

unfoldable pub resolve_reward_rate : RateScope → ℕ → List RewardRate → Option RewardRate
unfolding select_reward_rate
resolve_reward_rate scope now rates = select_reward_rate scope now true rates

unfoldable pub resolve_reward_rate_at : RateScope → ℕ → List RewardRate → Option RewardRate
unfolding select_reward_rate
resolve_reward_rate_at scope at rates = select_reward_rate scope at false rates

unfoldable pub compute_reward_amount : Doubles → ℕ → ℕ → Double → ℕ
compute_reward_amount d points quantity multiplier =
    d.round (d.times (d.times (d.of_nat points) (d.of_nat quantity)) multiplier)

unfoldable pub compute_weight_based_reward_amount : Doubles → ℕ → Option ℕ → Double → ℕ
compute_weight_based_reward_amount d rate_per_kg weight multiplier = d.floor (
    d.times
      (d.times (d.divide (d.of_nat (or_else weight 0)) (d.of_nat 1000)) (d.of_nat rate_per_kg))
      multiplier)
