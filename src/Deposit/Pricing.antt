-- ===== src/Deposit/Pricing.antt =====
-- What one accepted item can draw (lib/session-policy.ts, lib/machine-events/acceptance.ts).
use re_loop.Base.{
  ℕ, ◌≤◌, ◌≡◌, refl, sym, ◌∙◌, ◌⊎◌, Bool, true, false, not, ◌||◌, Option, none, some, List, [], ◌∷◌,
  ltb, if◌then◌else◌, All, arith, Bool-cases, Option-cases, inl, inr, is_some, ok, >>=-eq-ok, ◌≢◌,
}
use re_loop.Store.{Text, find_row-All}
use re_loop.Reward.{
  WeightProblem, Doubles, WasteUnit, per_item, per_kg, RewardRate, validate_weight,
  compute_reward_amount, compute_weight_based_reward_amount, RewardMode, money_reward,
  compliance_only, RewardStatus, accepted, review, rejected, decide_reward,
}
use re_loop.Reward.Sorting.{sort_keeps}
use re_loop.Reward.Decisions.{decide_pays}
use re_loop.Deposit.Policy.{
  PolicySnapshot, PolicyWasteType, BuildPolicyInput, WasteType, bps_to_multiplier, policy_item_cap,
  largest_cap, snapshot_max_item_cap, price_types, build_session_policy,
}
use re_loop.Deposit.Acceptance.{
  money_only, bound_of, funded_of, AcceptanceInput, Acceptance, snapshot_type, is_unpriceable,
  checked_weight, computed_amount, list_price, acceptance_input, price_acceptance, base_amount,
}

-- What is assumed of the arithmetic on doubles that are not negative: conversion, multiplication by
-- one factor, division by a thousand and rounding down keep the order.
pub record Monotone (d : Doubles) : Type 0 where
  pub le : ℕ → ℕ → Bool
  pub of_nat_mono : (a b : ℕ) → a ≤ b → le (d.of_nat a) (d.of_nat b) ≡ true
  pub times_mono : (x y c : ℕ) → le x y ≡ true → le (d.times x c) (d.times y c) ≡ true
  pub divide_mono :
      (x y : ℕ)
      → le x y ≡ true
      → le (d.divide x (d.of_nat 1000)) (d.divide y (d.of_nat 1000)) ≡ true
  pub floor_mono : (x y : ℕ) → le x y ≡ true → d.floor x ≤ d.floor y

weight_mono :
    (d : Doubles) (rate g w : ℕ) (multiplier : ℕ)
    → Monotone d
    → g ≤ w
    → compute_weight_based_reward_amount d rate (some g) multiplier
      ≤ compute_weight_based_reward_amount d rate (some w) multiplier
unfolding compute_weight_based_reward_amount
weight_mono d rate g w multiplier m h = m.floor_mono _ _ (
    m.times_mono _ _ multiplier (
      m.times_mono _ _ (d.of_nat rate)
        (m.divide_mono (d.of_nat g) (d.of_nat w) (m.of_nat_mono g w h))))

-- A type's cap is there and not above `cap`.
abbrev pub CapWithin : ℕ → Option ℕ → Type 0
CapWithin limit none = ⊥
CapWithin limit (some c) = c ≤ limit

largest_cap-Within :
    (best limit : ℕ) (l : List PolicyWasteType)
    → largest_cap best l ≡ some limit
    → (best ≤ limit) × All (λ t. CapWithin limit t.max_reward) l
unfolding largest_cap
largest_cap-Within best limit [] e = (ground arith, tt)
largest_cap-Within best limit (t ∷ l) e = elim (Option-cases t.max_reward) [
  | inl open_end ↦ absurd (ground arith)
  | inr (c, set) ↦
      let (higher, rest) =
        largest_cap-Within (if ltb best c then c else best) limit l (ground arith) in
      (ground arith, (rw set (ground arith), rest))
]

-- The snapshot prices each type by its cap.
abbrev pub IsPriced : Doubles → ℕ → PolicyWasteType → Type 0
IsPriced d factor t = t.max_reward ≡ policy_item_cap d t.unit t.reward_per_unit t.max_weight factor

price_types-IsPriced :
    (d : Doubles) (mode : RewardMode) (factor organization : ℕ) (campaign : Option ℕ) (now : ℕ)
    (rates : List RewardRate) (l : List WasteType)
    → All (IsPriced d factor) (price_types d mode factor organization campaign now rates l)
unfolding price_types
price_types-IsPriced d mode factor organization campaign now rates [] = tt
price_types-IsPriced d mode factor organization campaign now rates (t ∷ l) =
    (refl, price_types-IsPriced d mode factor organization campaign now rates l)

snapshot-IsPriced :
    (d : Doubles) (input : BuildPolicyInput) (now : ℕ) (rates : List RewardRate)
    → All
        (IsPriced d (build_session_policy d input now rates).multiplier_bps)
        (build_session_policy d input now rates).waste_types
unfolding build_session_policy
snapshot-IsPriced d input now rates =
    sort_keeps _ _ _
      (price_types-IsPriced d _ _ input.organization_id _ now rates input.waste_types)

-- A valid weight is at most the largest that the type allows.
valid_weight :
    (w low high : Option ℕ) (h : ℕ)
    → validate_weight w low high ≡ none
    → high ≡ some h
    → (g : ℕ) × (w ≡ some g) × (g ≤ h)
unfolding validate_weight
valid_weight none low high h v e = absurd (ground arith)
valid_weight (some g) low high h v e = (g, refl, ground arith)

Within-some : (limit : ℕ) (o : Option ℕ) (c : ℕ) → o ≡ some c → CapWithin limit o → c ≤ limit
Within-some limit none c e h = absurd h
Within-some limit (some b) c e h = ground arith

Within-none : (limit : ℕ) (o : Option ℕ) → o ≡ none → CapWithin limit o → ⊥
Within-none limit none e h = h
Within-none limit (some b) e h = ground arith

-- The amount of one item of a type is within the type's cap.
amount_within :
    (d : Doubles) (p : PolicySnapshot) (t : PolicyWasteType) (x : AcceptanceInput) (limit : ℕ)
    → Monotone d
    → IsPriced d p.multiplier_bps t
    → CapWithin limit t.max_reward
    → x.quantity ≡ 1
    → ((h : ℕ) → t.max_weight ≡ some h → (g : ℕ) × (x.weight ≡ some g) × (g ≤ h))
    → computed_amount d p t x ≤ limit
unfolding computed_amount policy_item_cap
amount_within d p t x limit m priced within one weighed = elim (unit_cases t.unit) [
  | inl item ↦
      let cap_is : t.max_reward
          ≡ some
              (compute_reward_amount d t.reward_per_unit 1 (bps_to_multiplier d p.multiplier_bps)) =
        ground (arith, priced, item) in
      let top = Within-some limit t.max_reward _ cap_is within in ground (arith, item, one, top)
  | inr kilo ↦ elim (Option-cases t.max_weight) [
    | inl open_end ↦
        absurd (Within-none limit t.max_reward (ground (arith, priced, kilo, open_end)) within)
    | inr (h, bounded) ↦
        let (g, weight, light) = weighed h bounded in
        let cap_is : t.max_reward
            ≡ some (
                compute_weight_based_reward_amount d t.reward_per_unit (some h)
                  (bps_to_multiplier d p.multiplier_bps)) =
          ground (arith, priced, kilo, bounded) in
        let top = Within-some limit t.max_reward _ cap_is within in
        let under =
          weight_mono d t.reward_per_unit g h (bps_to_multiplier d p.multiplier_bps) m light in
        ground (arith, kilo, weight, top, under)
  ]
]
  where
    unit_cases : (u : WasteUnit) → (u ≡ per_item) ⊎ (u ≡ per_kg)
    unit_cases per_item = inl refl
    unit_cases per_kg = inr refl

or_false : (b c : Bool) → (b || c) ≡ true → b ≡ false → c ≡ true
or_false b c h e = ground arith

no_problem : (o : Option WeightProblem) → not (is_some o) ≡ true → o ≡ none
no_problem none e = refl
no_problem (some w) e = absurd (ground arith)

-- The base amount of an item whose weight is valid is within the cap of the price list.
base_within :
    (d : Doubles) (p : PolicySnapshot) (x : AcceptanceInput) (limit : ℕ)
    → Monotone d
    → All (IsPriced d p.multiplier_bps) p.waste_types
    → All (λ t. CapWithin limit t.max_reward) p.waste_types
    → x.quantity ≡ 1
    → (is_unpriceable p x || not (is_some (checked_weight p x))) ≡ true
    → base_amount (list_price d p x) ≤ limit
unfolding list_price
base_within d p x limit m priced within one valid = elim (Bool-cases x.is_unknown_type) [
  | inl unknown ↦ ground arith
  | inr known ↦ elim (Option-cases (snapshot_type p x.waste_type_id)) [
    | inl outside ↦ ground arith
    | inr (t, listed) ↦
        let t_priced = find_row-All (IsPriced d p.multiplier_bps) _ p.waste_types t priced listed in
        let t_within =
          find_row-All (λ t. CapWithin limit t.max_reward) _ p.waste_types t within listed in
        let top = amount_within d p t x limit m t_priced t_within one (weighed t known listed) in
        ground (arith, top, known, listed)
  ]
]
  where
    weighed :
        (t : PolicyWasteType)
        → x.is_unknown_type ≡ false
        → snapshot_type p x.waste_type_id ≡ some t
        → (h : ℕ) → t.max_weight ≡ some h
        → (g : ℕ) × (x.weight ≡ some g) × (g ≤ h)
    weighed t known listed h bounded =
        let priceable : is_unpriceable p x ≡ false = ground arith in
        let priced_row = snapshot_type p x.waste_type_id in
        let checked : checked_weight p x ≡ none =
          no_problem (checked_weight p x)
            (or_false (is_unpriceable p x) (not (is_some (checked_weight p x))) valid priceable) in
        valid_weight x.weight
          (bound_of (is_unpriceable p x) (λ t. t.min_weight) priced_row x.type_min_weight)
          (bound_of (is_unpriceable p x) (λ t. t.max_weight) priced_row x.type_max_weight) h checked
          (rw priceable (rw listed (rw bounded refl)))

mode_cases : (r : RewardMode) → (r ≡ compliance_only) ⊎ (r ≡ money_reward)
mode_cases compliance_only = inl refl
mode_cases money_reward = inr refl

snapshot_cap :
    (p : PolicySnapshot) (limit : ℕ)
    → snapshot_max_item_cap (some p) ≡ some limit
    → ((p.mode ≡ compliance_only) × (limit ≡ 0))
      ⊎ ((p.mode ≡ money_reward) × All (λ t. CapWithin limit t.max_reward) p.waste_types)
unfolding snapshot_max_item_cap
snapshot_cap p limit e = elim (mode_cases p.mode) [
  | inl compliance ↦ inl (compliance, ground arith)
  | inr money ↦ inr (money, (largest_cap-Within 0 limit p.waste_types (ground arith)).1)
]

funded_within :
    (mode : RewardMode) (status : RewardStatus) (base amount top : ℕ)
    → (status ≡ rejected → amount ≡ 0)
    → (mode ≡ compliance_only → amount ≡ 0)
    → amount ≤ base
    → (mode ≡ money_reward → status ≢ rejected → base ≤ top)
    → (amount ≤ funded_of status (money_only mode base) amount)
      × (funded_of status (money_only mode base) amount ≤ top)
funded_within compliance_only accepted base amount top r c le b =
    let zero = c refl in (omega arith, omega arith)
funded_within compliance_only review base amount top r c le b =
    let zero = c refl in (omega arith, omega arith)
funded_within compliance_only rejected base amount top r c le b =
    let zero = c refl in (omega arith, omega arith)
funded_within money_reward accepted base amount top r c le b =
    let most = b refl (λ q. cc) in (omega arith, omega arith)
funded_within money_reward review base amount top r c le b =
    let most = b refl (λ q. cc) in (omega arith, omega arith)
funded_within money_reward rejected base amount top r c le b =
    let zero = r refl in (omega arith, omega arith)

-- One item of a session whose snapshot was built at admission and has a finite largest cap draws no
-- more than that cap when it is accepted: the amount is within what is committed, and that within the
-- cap. A pack of several items, which the machine may report as one, is not covered.
pub item_within_cap :
    (trim lower : Text → Text) (d : Doubles) (input : BuildPolicyInput) (now : ℕ)
    (rates : List RewardRate) (x : AcceptanceInput) (limit : ℕ) (a : Acceptance)
    → Monotone d
    → snapshot_max_item_cap (some (build_session_policy d input now rates)) ≡ some limit
    → x.quantity ≡ 1
    → price_acceptance trim lower d (build_session_policy d input now rates) x ≡ ok a
    → (a.decision.amount ≤ a.funded) × (a.funded ≤ limit)
unfolding price_acceptance
item_within_cap trim lower d input now rates x limit a m top one e =
    let p = build_session_policy d input now rates in
    let (decision, decided, rest) =
      >>=-eq-ok (decide_reward (acceptance_input trim lower d p x)) _ e in
    let (_, _, dropped, _, at_most, _, nothing) =
      decide_pays (acceptance_input trim lower d p x) decided in
    let bounded =
      funded_within p.mode decision.status (base_amount (list_price d p x)) decision.amount limit
        (λ q. nothing (inr q)) (λ q. nothing (inl q)) at_most
        (λ money kept. elim (snapshot_cap p limit top) [
          | inl (compliance, _) ↦ absurd (clash (sym compliance ∙ money))
          | inr (_, within) ↦
              base_within d p x limit m (snapshot-IsPriced d input now rates) within one
                (not_dropped _ (λ bad. kept (dropped.1 bad)))
        ]) in
    let same : decision ≡ a.decision = ground arith in
    let funded : funded_of decision.status (money_only p.mode (base_amount (list_price d p x)))
          decision.amount
        ≡ a.funded =
      ground arith in
    (rw (← same) (rw (← funded) bounded.0), rw (← funded) bounded.1)
  where
    clash : compliance_only ≡ money_reward → ⊥
    clash q = cc

    not_dropped : (b : Bool) → (b ≡ false → ⊥) → b ≡ true
    not_dropped true k = refl
    not_dropped false k = absurd (k refl)
