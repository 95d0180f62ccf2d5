-- ===== src/Deposit/Rows.antt =====
-- The rows that lib/deposit-session-service.ts reads and writes, and the active statuses.
use re_loop.Base.{ℕ, Bool, true, false, not, ◌&&◌, Option, List, leb, ◌==◌, is_some, find_row}
use re_loop.Store.{Text, FundingDb, update_row}
use re_loop.Machine.{
  SessionStatus, reserved, active, processing_item, in_review, completed, cancelled, expired,
  MachineStatus,
}
use re_loop.Reward.{Doubles, RewardRate, RewardMode}
use re_loop.Deposit.Deadline.{session_deadline}
use re_loop.Deposit.Policy.{PolicySnapshot, CanonicalPolicy, SessionCampaign, WasteType}
use re_loop.Deposit.Eligibility.{EligibilityRules}

-- `ACTIVE_SESSION_STATUSES`
unfoldable pub is_active_session : SessionStatus → Bool
is_active_session reserved = true
is_active_session active = true
is_active_session processing_item = true
is_active_session in_review = true
is_active_session completed = false
is_active_session cancelled = false
is_active_session expired = false

-- `DepositSession`; the snapshot column is `none` when it is empty or does not parse.
pub record Session : Type 0 where
  pub id : ℕ
  pub user_id : ℕ
  pub machine_id : ℕ
  pub campaign_id : Option ℕ
  pub status : SessionStatus
  pub started_at : ℕ
  pub completed_at : Option ℕ
  pub timeout_at : Option ℕ
  pub policy_version : Option ℕ
  pub policy : Option PolicySnapshot

pub data ItemStatus : Type 0 where
  item_pending item_accepted item_rejected item_review : ItemStatus

pub data ItemReason : Type 0 where
  session_timeout session_closed unknown_waste_type review_approved review_rejected : ItemReason
  other_reason : ℕ → ItemReason

-- `DepositItem`
pub record Item : Type 0 where
  pub id : ℕ
  pub session_id : ℕ
  pub status : ItemStatus
  pub acceptance_event_id : Option ℕ
  pub reason : Option ItemReason

-- A machine with its organization and its active waste types, as the admission query joins them.
pub record Machine : Type 0 where
  pub id : ℕ
  pub machine_code : Text
  pub organization_id : ℕ
  pub status : MachineStatus
  pub qr_token : Option ℕ
  pub qr_token_expires_at : Option ℕ
  pub idle_timeout_minutes : ℕ
  pub max_reward_per_session : Option ℕ
  pub max_items_per_session : Option ℕ
  pub organization_active : Bool
  pub organization_mode : RewardMode
  pub waste_types : List WasteType

-- The columns of `Campaign` that are read here; its budget stands in `FundingDb`.
pub record CampaignRow : Type 0 where
  pub id : ℕ
  pub organization_id : ℕ
  pub terms : SessionCampaign
  pub max_reward_per_session : Option ℕ
  pub eligibility : EligibilityRules

pub record User : Type 0 where
  pub id : ℕ
  pub email : Text

pub record DepositDb : Type 0 where
  pub machines : List Machine
  pub campaigns : List CampaignRow
  pub users : List User
  pub rates : List RewardRate
  pub sessions : List Session
  pub items : List Item
  pub funding : FundingDb
  pub next_id : ℕ

-- What the source takes from outside: arithmetic on doubles, lower-casing, the hash of a snapshot,
-- and the funding switch.
pub record Env : Type 0 where
  pub doubles : Doubles
  pub lower : Text → Text
  pub policy_hash : CanonicalPolicy → ℕ
  pub enforced : Bool

abbrev pub find_session : ℕ → DepositDb → Option Session
find_session i db = find_row (λ s. s.id == i) db.sessions

abbrev pub find_machine : ℕ → DepositDb → Option Machine
find_machine i db = find_row (λ m. m.id == i) db.machines

abbrev pub set_session : ℕ → (Session → Session) → DepositDb → DepositDb
set_session i g db = record db { sessions = update_row (λ s. s.id == i) g db.sessions }

abbrev pub set_item : ℕ → (Item → Item) → DepositDb → DepositDb
set_item i g db = record db { items = update_row (λ x. x.id == i) g db.items }

-- The deadline of a row.
abbrev pub deadline : ℕ → Session → ℕ
deadline idle s = session_deadline s.timeout_at s.started_at idle

-- `sessionDeadline(session) <= now`
abbrev pub timed_out : ℕ → ℕ → Session → Bool
timed_out idle now s = leb (deadline idle s) now

abbrev pub is_pending : ItemStatus → Bool
is_pending item_pending = true
is_pending _ = false

-- `undecidedItemsWhere`, the item's own part: the machine has not decided it yet.
abbrev pub undecided : Item → Bool
undecided x = is_pending x.status && not (is_some x.acceptance_event_id)

-- The active sessions of a machine.
abbrev pub on_machine : ℕ → Session → Bool
on_machine m s = (s.machine_id == m) && is_active_session s.status
