-- ===== src/Reward/Tests.antt =====
-- Runs of lib/reward-policy.ts on a clean deposit of a bottle and on a campaign at machines.
use re_loop.Reward.Rates.{
  RewardRate, RateScope, per_item, select_reward_rate, rate_priority, in_scope,
  rate_window_contains, in_rate_window,
}
use re_loop.Reward.Selection.{Finds, select-Finds}
use re_loop.Base.{
  Option, Bool, List, ℕ, pos, ◌+◌, ◌≤◌, ◌≡◌, ◌↔◌, ◌⊎◌, refl, true, false, none, some, [], ◌∷◌, ok,
}
use re_loop.Store.{Text}
use re_loop.Reward.Policy.{
  money_reward, compliance_only, accepted, rejected, available, RewardDecisionInput, RewardDecision,
  all_accepted, decide_reward, CampaignPolicyInput, event, machine_reward_mode, trip_reward_mode,
  campaign_supports_machine,
}
use re_loop.Reward.Material.{MaterialInput, ai_required, weight_only}
use re_loop.Reward.Decisions.{IsClean, decide_pays, one_place_pays}

abbrev clean : RewardDecisionInput
clean = record {
  mode = money_reward;
  base_amount = 150;
  weight_valid = true;
  type_match = true;
  has_anomaly = false;
}

abbrev decision : RewardDecision
decision = record {
  status = accepted;
  amount = 150;
  ledger_status = available;
  reason = all_accepted;
}

decided : decide_reward clean ≡ ok decision
unfolding decide_reward
decided = refl

decide_pays_example :
    ((accepted ≡ accepted) ↔ IsClean clean)
    × ((available ≡ available) ↔ IsClean clean)
    × ((accepted ≡ rejected) ↔ (clean.weight_valid ≡ false))
    × (IsClean clean → clean.mode ≡ money_reward → decision.amount ≡ clean.base_amount)
    × (decision.amount ≤ clean.base_amount)
    × ((accepted ≡ accepted) ⊎ (decision.amount + decision.amount ≤ clean.base_amount))
    × ((clean.mode ≡ compliance_only) ⊎ (accepted ≡ rejected) → decision.amount ≡ 0)
decide_pays_example = decide_pays clean decided

abbrev school_day : CampaignPolicyInput
school_day = record { campaign_type = event; reward_mode = money_reward; supports_machine = true }

at_machines : machine_reward_mode (some school_day) compliance_only ≡ money_reward
unfolding machine_reward_mode campaign_supports_machine
at_machines = refl

one_place_pays_example : trip_reward_mode school_day ≡ compliance_only
one_place_pays_example = one_place_pays school_day compliance_only at_machines

abbrev same : Text → Text
same t = t

abbrev bottle : MaterialInput
bottle = record {
  policy = some weight_only;
  accepted_labels = (112 ∷ 101 ∷ 116 ∷ []) ∷ [];
  ai_label = some (112 ∷ 101 ∷ 116 ∷ []);
  ai_confidence = some 900000;
  barcode_value = none;
  min_confidence = none;
}

abbrev strict_bottle : MaterialInput
strict_bottle = record bottle { policy = some ai_required }

abbrev rate : ℕ → Option ℕ → ℕ → Bool → RewardRate
rate i organization from enabled = record {
  id = i;
  organization_id = organization;
  campaign_id = none;
  waste_type_id = 3;
  unit = per_item;
  points_per_item = pos 100;
  min_weight = none;
  max_weight = none;
  effective_from = from;
  effective_to = some 100;
  enabled = enabled;
}

-- The organization's rate is chosen, though the global one is newer and another was switched off.
abbrev rates : List RewardRate
rates = rate 1 none 40 true ∷ rate 2 (some 7) 10 true ∷ rate 3 (some 7) 20 false ∷ []

abbrev scope : RateScope
scope = record { organization_id = 7; campaign_id = none; waste_type_id = 3 }

select-Finds_example : Finds scope 50 true rates (some (rate 2 (some 7) 10 true))
unfolding select_reward_rate rate_priority in_scope rate_window_contains in_rate_window
select-Finds_example = select-Finds scope 50 true rates
