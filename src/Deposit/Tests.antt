-- ===== src/Deposit/Tests.antt =====
-- Runs of lib/deposit-session-service.ts and lib/machine-events/acceptance.ts on one machine: a scan,
-- a timeout and an acceptance.
use native.Mathlib.Nat.{mul-le-mul_right}
use re_loop.Base.{
  leb→le, ℕ, ◌+◌, ◌*◌, ◌/◌, ◌≤◌, ◌≡◌, refl, true, false, none, some, [], ◌∷◌, pos, leb, ltb, ◌==◌,
  Outcome, ok, err, arith, ◌+ℤ◌, ◌-ℤ◌,
}
use re_loop.Store.{FundingDb, Failure, Text, key_eq}
use re_loop.Machine.{can_transition_session, in_review, active, online}
use re_loop.Funding.{
  reserve_reward_budget, admit, enforce, hold, write_reservation, reserve_delta, assert_rupiah,
  bump_account, bump_campaign, check_capacity, lock_funding_account,
}
use re_loop.Funding.Solvency.{Solvent}
use re_loop.Funding.Linking.{Lawful}
use re_loop.Reward.{
  classifier_reported, verify_material, validate_weight, all_accepted, Doubles, per_item,
  money_reward, MaterialInput, weight_only, accepted, available,
}
use re_loop.Deposit.Policy.{
  PolicySnapshot, BuildPolicyInput, WasteType, build_session_policy, snapshot_max_item_cap,
}
use re_loop.Deposit.Rows.{
  find_session, Session, Item, item_pending, Machine, DepositDb, Env, is_active_session,
}
use re_loop.Deposit.Deadline.{session_deadline, machine_lease_expiry}
use re_loop.Deposit.Expire.{expire_timed_out_sessions}
use re_loop.Deposit.Start.{StartInput, StartDecision, conflict, decide_start}
use re_loop.Deposit.Answer.{Round}
use re_loop.Deposit.Acceptance.{by_policy, AcceptanceInput, Acceptance, price_acceptance}
use re_loop.Deposit.Resting.{start, arrives, events_keep_status}
use re_loop.Deposit.Events.{
  session_side_effects, handle_event, flag_anomaly, fraud_detected, safe_state_entered,
  item_detected, detect_item,
}
use re_loop.Deposit.Timeout.{expire_one_pass, expired_session, held_item}
use re_loop.Deposit.Leases.{closed_after_leases}
use re_loop.Deposit.Exclusion.{Exclusive}
use re_loop.Deposit.History.{begins, goes_on, starts, History-Exclusive}
use re_loop.Deposit.Admissions.{Promised, start_backed}
use re_loop.Deposit.Pricing.{Monotone, item_within_cap}

-- Doubles as millionths.
abbrev millionths : Doubles
millionths = record {
  of_nat = λ n. n * 1000000;
  times = λ a b. a * b / 1000000;
  divide = λ a b. a * 1000000 / b;
  is_positive = λ a. ltb 0 a;
  round = λ a. (a + 500000) / 1000000;
  floor = λ a. a / 1000000;
}

abbrev env : Env
env = record { doubles = millionths; lower = λ t. t; policy_hash = λ c. 17; enforced = true }

abbrev bottle : WasteType
bottle = record {
  id = 3;
  unit = per_item;
  default_reward = some (pos 200);
  min_weight = some 5;
  max_weight = some 90;
}

abbrev rvm : Machine
rvm = record {
  id = 1;
  machine_code = [];
  organization_id = 7;
  status = online;
  qr_token = some 42;
  qr_token_expires_at = some 900000;
  idle_timeout_minutes = 3;
  max_reward_per_session = some 500;
  max_items_per_session = some 4;
  organization_active = true;
  organization_mode = money_reward;
  waste_types = bottle ∷ [];
}

abbrev cash : FundingDb
cash = record {
  accounts =
      record { id = 0; organization_id = 7; confirmed = pos 1000; held = pos 0; version = 0 } ∷ [];
  campaigns = [];
  reservations = [];
  commits = [];
  releases = [];
  entries = [];
  next_id = 1;
}

-- A session whose deadline was at 180000, with an item that the machine has not decided.
abbrev old_session : Session
old_session = record {
  id = 0;
  user_id = 5;
  machine_id = 1;
  campaign_id = none;
  status = active;
  started_at = 0;
  completed_at = none;
  timeout_at = none;
  policy_version = none;
  policy = none;
}

abbrev old_item : Item
old_item = record {
  id = 1;
  session_id = 0;
  status = item_pending;
  acceptance_event_id = none;
  reason = none;
}

abbrev before : DepositDb
before = record {
  machines = rvm ∷ [];
  campaigns = [];
  users = [];
  rates = [];
  sessions = old_session ∷ [];
  items = old_item ∷ [];
  funding = cash;
  next_id = 2;
}

abbrev now : ℕ
now = 200000

abbrev scan : StartInput
scan = record { actor = 6; token = 42; campaign_id = none; machine_id = 1; organization_id = 7 }

abbrev state_of : Outcome Failure (StartDecision × DepositDb) → DepositDb
state_of (ok (d, db)) = db
state_of (err e) = before

abbrev decision_of : Outcome Failure (StartDecision × DepositDb) → StartDecision
decision_of (ok (d, db)) = d
decision_of (err e) = conflict [] []

abbrev scanned : DepositDb
scanned = state_of (decide_start env scan now before)

abbrev answer : StartDecision
answer = decision_of (decide_start env scan now before)

scans : decide_start env scan now before ≡ ok (answer, scanned)
unfolding decide_start reserve_reward_budget admit enforce hold write_reservation reserve_delta
    assert_rupiah bump_account bump_campaign check_capacity lock_funding_account ◌+ℤ◌ ◌-ℤ◌ key_eq
    is_active_session session_deadline
scans = refl

before-Exclusive : Exclusive 1 before
unfolding is_active_session
before-Exclusive = record {
  sessions = record { distinct = (tt, tt); older = (ground arith, tt) };
  items = record { distinct = (tt, tt); older = (ground arith, tt) };
  one = ground arith;
}

History-Exclusive_example : Exclusive 1 scanned
History-Exclusive_example =
    History-Exclusive env 1 (goes_on begins (starts scan now answer scans)) before-Exclusive

-- The old session expires and its item waits in review.
expire_one_pass_example : (expire_timed_out_sessions (0 ∷ 0 ∷ []) 3 now before).1 ≡ record before {
  sessions = expired_session now old_session ∷ [];
  items = held_item old_item ∷ [];
}
unfolding session_deadline is_active_session
expire_one_pass_example = expire_one_pass (0 ∷ 0 ∷ []) 3 now before (tt, tt) (tt, tt)

-- A lease that was issued at second 100 ran out at second 180.
closed_after_leases_example :
    (expired_session now old_session ≡ expired_session now old_session) × (180 * 1000 ≤ now)
unfolding expire_timed_out_sessions session_deadline is_active_session machine_lease_expiry
closed_after_leases_example =
    closed_after_leases (0 ∷ []) 3 now before 0 old_session (expired_session now old_session) 180000
      100 180 (tt, tt) (tt, tt) refl refl refl refl (omega arith) refl

-- The index refuses the first attempt, and the winner has ended by the time it is looked for.
abbrev rounds : ℕ → Round
rounds attempt = record {
  before = before;
  now = now;
  conflicts = attempt == 0;
  later = record before { sessions = [] };
}

cash-Solvent : Solvent cash
cash-Solvent = record {
  accounts = record { distinct = (tt, tt); older = (ground arith, tt) };
  covered = (ground arith, tt);
}

cash-Lawful : Lawful cash
cash-Lawful = record {
  keyed = record {
    reservations = record { distinct = tt; older = tt };
    commits = record { distinct = tt; older = tt };
    linked = tt;
  };
  sound = record { conserved = λ a. ground arith; paid_within = tt; released_empty = tt };
}

start_backed_example : Solvent scanned.funding × Promised 6 answer scanned.funding
start_backed_example =
    start_backed env scan now before scanned answer refl cash-Solvent cash-Lawful scans

times_keeps :
    (x y c : ℕ) → leb x y ≡ true → leb (millionths.times x c) (millionths.times y c) ≡ true
times_keeps x y c h = let grown = mul-le-mul_right c (leb→le x y h) in ground arith

millionths-Monotone : Monotone millionths
millionths-Monotone = record {
  le = λ a b. leb a b;
  of_nat_mono = λ a b h. ground arith;
  times_mono = times_keeps;
  divide_mono = λ x y h. ground arith;
  floor_mono = λ x y h. ground arith;
}

abbrev price_list : BuildPolicyInput
price_list = record {
  organization_id = 7;
  organization_mode = money_reward;
  max_items_per_session = some 4;
  waste_types = bottle ∷ [];
  campaign = none;
  ceiling = some 500;
}

abbrev snapshot : PolicySnapshot
snapshot = build_session_policy millionths price_list 0 []

abbrev no_check : MaterialInput
no_check = record {
  policy = some weight_only;
  accepted_labels = [];
  ai_label = none;
  ai_confidence = none;
  barcode_value = none;
  min_confidence = none;
}

abbrev dropped : AcceptanceInput
dropped = record {
  waste_type_id = 3;
  type_min_weight = some 5;
  type_max_weight = some 90;
  is_unknown_type = false;
  quantity = 1;
  weight = some 30;
  sensor = none;
  fraud_flag = false;
  reported_after_end = false;
  material = no_check;
  session_status = active;
  ended_at = 180000;
  occurred_at = some 1000;
}

abbrev same_text : Text → Text
same_text t = t

abbrev accepted_of : Outcome Failure Acceptance → Acceptance → Acceptance
accepted_of (ok a) other = a
accepted_of (err e) other = other

-- A clean bottle at 200 rupiah.
abbrev bottle_pays : Acceptance
bottle_pays = record {
  decision = record {
    status = accepted;
    amount = 200;
    ledger_status = available;
    reason = all_accepted;
  };
  reason = by_policy;
  rate_id = none;
  base_reward = 200;
  funded = 200;
}

item_within_cap_example : (200 ≤ 200) × (200 ≤ 200)
unfolding snapshot_max_item_cap build_session_policy price_acceptance validate_weight
    verify_material classifier_reported
item_within_cap_example =
    item_within_cap same_text same_text millionths price_list 0 [] dropped 200 bottle_pays
      millionths-Monotone refl refl refl

abbrev reviewed_session : Session
reviewed_session = record old_session { status = in_review }

abbrev in_doubt : DepositDb
in_doubt = record before { sessions = reviewed_session ∷ [] }

-- A fraud alarm, a safe state and another item, which comes too late.
alarmed : session_side_effects fraud_detected 0 3 now in_doubt ≡ ok in_doubt
unfolding session_side_effects handle_event flag_anomaly
alarmed = refl

latches : session_side_effects safe_state_entered 0 3 now in_doubt ≡ ok in_doubt
unfolding session_side_effects handle_event can_transition_session
latches = refl

abbrev another_item : DepositDb
another_item = detect_item false 3 now reviewed_session in_doubt

detects : session_side_effects (item_detected false) 0 3 now in_doubt ≡ ok another_item
unfolding session_side_effects handle_event
detects = refl

events_keep_status_example :
    (t : Session) × (find_session 0 another_item ≡ some t) × (t.status ≡ in_review)
events_keep_status_example = events_keep_status 0 reviewed_session refl refl (
    arrives (item_detected false) 0 3 now
      (arrives safe_state_entered 0 3 now (arrives fraud_detected 0 3 now start alarmed) latches)
      detects)
