-- ===== src/Deposit/Start.antt =====
-- Admission (`decideStart` of lib/deposit-session-service.ts and what it calls, `isTokenValid` of
-- lib/qr.ts). The instants that one transaction reads from the clock are one value.
use re_loop.Base.{
  ℕ, ◌+◌, ◌*◌, Bool, true, false, not, ◌&&◌, ◌||◌, Option, none, some, List, [], ◌∷◌, ◌++◌, ltb,
  ◌==◌, if◌then◌else◌, or_else, is_some, find_row, where_rows, any_of, map, Outcome, ok, ◌>>=◌,
  ◌>>◌, throw_if, or_throw,
}
use re_loop.Store.{
  Failure, http_error, machine_not_found, machine_changed, qr_token_invalid, machine_not_accepting,
  organization_inactive, machine_without_waste_types, campaign_not_for_machine, campaign_not_valid,
  campaign_not_eligible, funding_insufficient, Text, session_admission_key, session_source,
}
use re_loop.Funding.{
  lock_funding_account, resolve_session_ceiling, reserve_reward_budget, ReserveInput,
}
use re_loop.Machine.{active, machine_accepts_sessions}
use re_loop.Reward.{
  sort_rows, campaign_supports_machine, machine_reward_mode, RewardMode, money_reward,
  compliance_only,
}
use re_loop.Deposit.Policy.{
  build_session_policy, canonical_session_policy, PolicySnapshot, policy_of, SessionCampaign,
}
use re_loop.Deposit.Eligibility.{is_campaign_eligible}
use re_loop.Deposit.Rows.{
  Session, Machine, CampaignRow, DepositDb, Env, find_machine, timed_out, on_machine,
}
use re_loop.Deposit.Expire.{ExpiredSession, expire_timed_out_sessions}

unfoldable pub is_token_valid : Machine → ℕ → ℕ → Bool
is_token_valid m token now = elim m.qr_token [
  | none ↦ false
  | some t ↦ elim m.qr_token_expires_at [
    | none ↦ false
    | some expires ↦ (t == token) && ltb now expires
  ]
]

pub data StartDecision : Type 0 where
  created : Session → List ExpiredSession → Option ℕ → StartDecision
  resumed : Session → List ExpiredSession → StartDecision
  busy : List ExpiredSession → StartDecision
  conflict : List ℕ → List ExpiredSession → StartDecision

pub record StartInput : Type 0 where
  pub actor : ℕ
  pub token : ℕ
  pub campaign_id : Option ℕ
  -- the machine behind the code, and its organization, as read before the locks
  pub machine_id : ℕ
  pub organization_id : ℕ

abbrev pub find_campaign_row : ℕ → DepositDb → Option CampaignRow
find_campaign_row i db = find_row (λ c. c.id == i) db.campaigns

-- `user?.email ?? ""`
abbrev email_of : ℕ → DepositDb → Text
email_of i db = elim (find_row (λ u. u.id == i) db.users) [ none ↦ [] | some u ↦ u.email ]

unfoldable pub assert_campaign_for_machine :
    Env → ℕ → ℕ → ℕ → ℕ → DepositDb → Outcome Failure CampaignRow
unfolding campaign_supports_machine is_campaign_eligible
assert_campaign_for_machine env actor organization campaign_id now db = do
  c ← or_throw (find_campaign_row campaign_id db) (http_error 422 campaign_not_valid)
  throw_if (not (c.organization_id == organization)) (http_error 422 campaign_not_valid)
  throw_if (not (campaign_supports_machine c.terms.policy))
      (http_error 422 campaign_not_for_machine)
  throw_if (is_some (is_campaign_eligible env.lower c.eligibility (email_of actor db) now))
      (http_error 403 campaign_not_eligible)
  ok c

abbrev pub terms_of : Option CampaignRow → Option SessionCampaign
terms_of none = none
terms_of (some c) = some c.terms

abbrev pub row_id : Option CampaignRow → Option ℕ
row_id none = none
row_id (some c) = some c.id

abbrev pub ceiling_column : Option CampaignRow → Option (Option ℕ)
ceiling_column none = none
ceiling_column (some c) = some c.max_reward_per_session

-- `resolveSessionCeiling({ campaign, machine })`
abbrev pub ceiling_for : Machine → Option CampaignRow → Option ℕ
ceiling_for m campaign = resolve_session_ceiling (ceiling_column campaign) m.max_reward_per_session

abbrev pub mode_for : Machine → Option CampaignRow → RewardMode
mode_for m campaign = machine_reward_mode (policy_of (terms_of campaign)) m.organization_mode

abbrev pub admission : Session → Machine → Option CampaignRow → ReserveInput
admission s m campaign = record {
  business_key = session_admission_key s.id;
  organization_id = m.organization_id;
  campaign_id = row_id campaign;
  user_id = s.user_id;
  ceiling = or_else (ceiling_for m campaign) 0;
  source = session_source s.id;
}

-- The money branch of `reserveSessionCeiling`: without a configured ceiling, a refusal under
-- enforcement and a zero ceiling in shadow mode.
unfoldable pub reserve_money :
    Env
    → Session
    → Machine
    → Option CampaignRow
    → DepositDb
    → Outcome Failure (Option (ℕ × ℕ) × DepositDb)
unfolding resolve_session_ceiling
reserve_money env s m campaign db = do
  throw_if (not (is_some (ceiling_for m campaign)) && env.enforced)
      (http_error 409 funding_insufficient)
  (reservation, funding) ← reserve_reward_budget env.enforced (admission s m campaign) db.funding
  ok (some (or_else (ceiling_for m campaign) 0, reservation), record db { funding = funding })

-- `reserveSessionCeiling`: nothing for a compliance session.
unfoldable pub reserve_session_ceiling :
    Env
    → Session
    → Machine
    → Option CampaignRow
    → DepositDb
    → Outcome Failure (Option (ℕ × ℕ) × DepositDb)
unfolding machine_reward_mode reserve_money
reserve_session_ceiling env s m campaign db = elim (mode_for m campaign) [
  | compliance_only ↦ ok (none, db)
  | money_reward ↦ reserve_money env s m campaign db
]

abbrev pub earlier_session : Session → Session → Bool
earlier_session a b =
    ltb a.started_at b.started_at || ((a.started_at == b.started_at) && ltb a.id b.id)

-- The active sessions of a machine, the oldest first.
abbrev pub active_sessions : ℕ → DepositDb → List Session
active_sessions m db = sort_rows earlier_session (where_rows (on_machine m) db.sessions)

abbrev pub snapshot_for : Env → Machine → Option CampaignRow → ℕ → DepositDb → PolicySnapshot
snapshot_for env m campaign now db =
    build_session_policy env.doubles
      (record {
        organization_id = m.organization_id;
        organization_mode = m.organization_mode;
        max_items_per_session = m.max_items_per_session;
        waste_types = m.waste_types;
        campaign = terms_of campaign;
        ceiling = ceiling_for m campaign;
      })
      now db.rates

abbrev pub new_session : Env → StartInput → Machine → PolicySnapshot → ℕ → ℕ → Session
new_session env input m policy now id = record {
  id = id;
  user_id = input.actor;
  machine_id = input.machine_id;
  campaign_id = input.campaign_id;
  status = active;
  started_at = now;
  completed_at = none;
  timeout_at = some (now + m.idle_timeout_minutes * 60000);
  policy_version = some (env.policy_hash (canonical_session_policy policy));
  policy = some policy;
}

abbrev pub insert_session : Session → DepositDb → DepositDb
insert_session s db = record db { sessions = db.sessions ++ s ∷ []; next_id = db.next_id + 1 }

-- The answer once the timed-out sessions are closed: `live` are those that remain.
unfoldable pub decide_live :
    Env
    → StartInput
    → Machine
    → Option CampaignRow
    → ℕ
    → List ExpiredSession
    → List Session
    → DepositDb
    → Outcome Failure (StartDecision × DepositDb)
unfolding reserve_session_ceiling build_session_policy canonical_session_policy
decide_live env input m campaign now gone [] db = do
  let policy = snapshot_for env m campaign now db
  let s = new_session env input m policy now db.next_id
  (_, after) ← reserve_session_ceiling env s m campaign (insert_session s db)
  ok (created s gone input.campaign_id, after)
decide_live env input m campaign now gone (s ∷ []) db =
    ok ((if s.user_id == input.actor then resumed s gone else busy gone), db)
decide_live env input m campaign now gone (s ∷ t ∷ l) db =
    ok (conflict (map (λ x. x.id) (s ∷ t ∷ l)) gone, db)

-- The requested campaign is read only when a session would be created.
abbrev pub wanted_campaign :
    Env → StartInput → Machine → List Session → ℕ → DepositDb → Outcome Failure (Option CampaignRow)
wanted_campaign env input m (s ∷ l) now db = ok none
wanted_campaign env input m [] now db = elim input.campaign_id [
  | none ↦ ok none
  | some i ↦ do
    c ← assert_campaign_for_machine env input.actor m.organization_id i now db
    ok (some c)
]

abbrev unknown_campaign : Option ℕ → DepositDb → Bool
unknown_campaign none db = false
unknown_campaign (some i) db = not (is_some (find_campaign_row i db))

abbrev is_empty {ℓ} : {A : Type ℓ} → List A → Bool
is_empty [] = true
is_empty (x ∷ l) = false

-- Those that the timeout policy did not close, after all.
abbrev pub not_closed : List ExpiredSession → List Session → List Session
not_closed gone timed = where_rows (λ s. not (any_of (λ e. e.session_id == s.id) gone)) timed

-- The refusals that need no session, and the machine.
unfoldable pub admit_request : StartInput → ℕ → DepositDb → Outcome Failure Machine
unfolding is_token_valid machine_accepts_sessions
admit_request input now db = do
  throw_if (unknown_campaign input.campaign_id db) (http_error 422 campaign_not_valid)
  m ← or_throw (find_machine input.machine_id db) (http_error 404 machine_not_found)
  throw_if (not (m.organization_id == input.organization_id)) (http_error 409 machine_changed)
  throw_if (not (is_token_valid m input.token now)) (http_error 401 qr_token_invalid)
  throw_if (not (machine_accepts_sessions m.status)) (http_error 409 machine_not_accepting)
  throw_if (not m.organization_active) (http_error 409 organization_inactive)
  throw_if (is_empty m.waste_types) (http_error 409 machine_without_waste_types)
  ok m

-- The rest, for the machine that was read under the locks.
unfoldable pub start_on :
    Env → StartInput → Machine → ℕ → DepositDb → Outcome Failure (StartDecision × DepositDb)
unfolding decide_live expire_timed_out_sessions assert_campaign_for_machine
start_on env input m now db = do
  let idle = m.idle_timeout_minutes
  let all_active = active_sessions input.machine_id db
  let timed = where_rows (timed_out idle now) all_active
  let live = where_rows (λ s. not (timed_out idle now s)) all_active
  campaign ← wanted_campaign env input m live now db
  let (gone, after) = expire_timed_out_sessions (map (λ s. s.id) timed) idle now db
  decide_live env input m campaign now gone (live ++ not_closed gone timed) after

unfoldable pub decide_start :
    Env → StartInput → ℕ → DepositDb → Outcome Failure (StartDecision × DepositDb)
unfolding admit_request start_on
decide_start env input now db = do
  let (_, funding) = lock_funding_account input.organization_id db.funding
  let locked = record db { funding = funding }
  m ← admit_request input now locked
  start_on env input m now locked
