-- ===== src/Reward.antt =====
-- The reward policy (lib/reward-policy.ts): whether a deposit earns money, how much, and in which
-- status; material verification and the modes of campaigns; reward rates (lib/reward.ts).
mod Policy
mod Material
mod Rates
pub mod Sorting
pub mod Selection
pub mod Decisions
mod Tests
pub use Policy.*
unfoldable pub use Policy.{decide_reward, campaign_supports_machine, machine_reward_mode}
pub use Material.*
unfoldable pub use Material.{verify_material, classifier_reported}
pub use Rates.*
unfoldable pub use Rates.{
  validate_weight, insert_sorted, sort_rows, resolve_reward_rate, compute_reward_amount,
  compute_weight_based_reward_amount,
}
