-- ===== src/Deposit/Events.antt =====
-- What machine events write to a session and its new items (lib/machine-events/side-effects.ts,
-- lib/machine-events/acceptance.ts). The other columns of an item, its pricing and the machine row
-- are left out here.
use re_loop.Base.{
  ◌==◌, find_row, is_some, List, ℕ, ◌+◌, ◌*◌, Bool, true, false, not, ◌&&◌, ◌||◌, Option, none,
  some, [], ◌∷◌, ◌++◌, ltb, if◌then◌else◌, or_else, Outcome, ok, err, ◌>>=◌,
}
use re_loop.Store.{update_row, Failure, invalid_session_transition}
use re_loop.Machine.{
  reverse_motion, retrieval_attempt, impossible_sequence, SensorAnomaly, validate_sensor_sequence,
  SensorSequencePayload, in_review, SessionStatus, reserved, active, processing_item, completed,
  cancelled, expired, SessionAction, start_item, item_done, anomaly, safe_state,
  can_transition_session,
}
use re_loop.Deposit.Rows.{
  other_reason, ItemReason, ItemStatus, Session, Item, item_pending, item_review, session_closed,
  unknown_waste_type, DepositDb, find_session, set_session, timed_out,
}

-- `transitionSession`
unfoldable pub transition_session : SessionStatus → SessionAction → Outcome Failure SessionStatus
unfolding can_transition_session
transition_session s a = elim (can_transition_session s a) [
  | none ↦ err invalid_session_transition
  | some t ↦ ok t
]

-- `isTerminalSession`
abbrev pub is_terminal_session : SessionStatus → Bool
is_terminal_session completed = true
is_terminal_session cancelled = true
is_terminal_session expired = true
is_terminal_session _ = false

abbrev pub with_status : SessionStatus → Session → Session
with_status t s = record s { status = t }

-- A transition of one session that is written when its status is one of those that the handler names.
abbrev pub move_session : Bool → SessionAction → Session → DepositDb → Outcome Failure DepositDb
move_session false a s db = ok db
move_session true a s db = do
  t ← transition_session s.status a
  ok (set_session s.id (with_status t) db)

abbrev opens_chamber : SessionStatus → Bool
opens_chamber active = true
opens_chamber reserved = true
opens_chamber _ = false

abbrev pub is_processing : SessionStatus → Bool
is_processing processing_item = true
is_processing _ = false

abbrev is_plain_active : SessionStatus → Bool
is_plain_active active = true
is_plain_active _ = false

pub data MachineEvent : Type 0 where
  chamber_opened chamber_timeout safe_state_entered : MachineEvent
  -- whether the waste type fell back to the unknown one
  item_detected : Bool → MachineEvent
  -- whether the decision holds the item for review
  item_accepted_point : Bool → MachineEvent
  item_rejected_event : MachineEvent
  -- the item, and the log
  sensor_sequence : ℕ → SensorSequencePayload → MachineEvent
  fraud_detected vandalism_detected : MachineEvent

abbrev extended_timeout : ℕ → Option ℕ → Bool
extended_timeout later none = true
extended_timeout later (some t) = ltb t later

-- The deadline moves later, and only before it has passed.
unfoldable pub extend_deadline : ℕ → ℕ → Session → Session
extend_deadline idle now s =
    if not (is_terminal_session s.status) && not (timed_out idle now s)
    then if extended_timeout (now + idle * 60000) s.timeout_at
      then record s { timeout_at = some (now + idle * 60000) }
      else s
    else s

-- An active session within its deadline starts to process the item.
unfoldable pub begin_item : ℕ → ℕ → Session → Session
begin_item idle now s =
    if is_plain_active s.status && not (timed_out idle now s)
    then with_status processing_item s
    else s

-- The item of a session that has ended waits in review from the start.
unfoldable pub detected_item : Bool → Session → ℕ → Item
detected_item unknown s id = record {
  id = id;
  session_id = s.id;
  status = if unknown || is_terminal_session s.status then item_review else item_pending;
  acceptance_event_id = none;
  reason =
      if unknown
      then some unknown_waste_type
      else if is_terminal_session s.status
      then some session_closed
      else none;
}

-- The deadline is the one before the extension, as the handler computes it once.
unfoldable pub detect_item : Bool → ℕ → ℕ → Session → DepositDb → DepositDb
unfolding extend_deadline begin_item detected_item
detect_item unknown idle now s db =
    let touched =
      set_session s.id
        (λ r. record r {
          timeout_at = (extend_deadline idle now s).timeout_at;
          status = (begin_item idle now s).status;
        })
        db in
    record touched {
      items = touched.items ++ detected_item unknown s db.next_id ∷ [];
      next_id = db.next_id + 1;
    }

abbrev pub anomaly_ordinal : SensorAnomaly → ℕ
anomaly_ordinal reverse_motion = 0
anomaly_ordinal retrieval_attempt = 1
anomaly_ordinal impossible_sequence = 2

-- `flagAnomaly`, the session: one that works or waits goes to review, any other stays as it is.
abbrev pub anomalous : SessionStatus → SessionStatus
anomalous active = in_review
anomalous processing_item = in_review
anomalous s = s

abbrev pub flag_session : Session → DepositDb → DepositDb
flag_session s db =
    if is_terminal_session s.status
    then db
    else set_session s.id (λ r. record r { status = anomalous s.status }) db

-- Pending or in review, with no acceptance point yet.
abbrev pub reviewable : Item → Bool
reviewable x = is_open x.status && not (is_some x.acceptance_event_id)
  where
    is_open : ItemStatus → Bool
    is_open item_pending = true
    is_open item_review = true
    is_open _ = false

-- `flagAnomaly`, the item.
abbrev pub flag_item : ItemReason → ℕ → List Item → List Item
flag_item reason i items = elim (find_row (λ x. x.id == i) items) [
  | none ↦ items
  | some x ↦
      if reviewable x
      then update_row (λ y. y.id == i)
          (λ y. record y { status = item_review; reason = some (or_else x.reason reason) }) items
      else items
]

unfoldable pub flag_anomaly : ItemReason → Option ℕ → Session → DepositDb → DepositDb
flag_anomaly reason item s db =
    let flagged = flag_session s db in
    record flagged {
      items = elim item [ none ↦ flagged.items | some i ↦ flag_item reason i flagged.items ];
    }

unfoldable pub handle_event : MachineEvent → ℕ → ℕ → Session → DepositDb → Outcome Failure DepositDb
unfolding transition_session detect_item can_transition_session flag_anomaly
    validate_sensor_sequence
handle_event chamber_opened idle now s db = move_session (opens_chamber s.status) start_item s db
handle_event chamber_timeout idle now s db = move_session (is_processing s.status) item_done s db
handle_event item_rejected_event idle now s db =
    move_session (is_processing s.status) item_done s db
handle_event (item_accepted_point review) idle now s db =
    move_session (is_processing s.status) (if review then anomaly else item_done) s db
handle_event (item_detected unknown) idle now s db = ok (detect_item unknown idle now s db)
handle_event (sensor_sequence i log) idle now s db = elim (validate_sensor_sequence (some log)) [
  | none ↦ ok db
  | some a ↦ ok (flag_anomaly (other_reason (anomaly_ordinal a)) (some i) s db)
]
-- The reason is for the item, which is held elsewhere.
handle_event fraud_detected idle now s db = ok (flag_anomaly (other_reason 3) none s db)
handle_event vandalism_detected idle now s db = ok (flag_anomaly (other_reason 3) none s db)
handle_event safe_state_entered idle now s db =
    if is_terminal_session s.status
    then ok db
    else ok (
        set_session s.id
          (with_status (or_else (can_transition_session s.status safe_state) s.status)) db)

-- The effect of an event on the session that it names; an unknown session is ignored.
unfoldable pub session_side_effects :
    MachineEvent → ℕ → ℕ → ℕ → DepositDb → Outcome Failure DepositDb
unfolding handle_event
session_side_effects event id idle now db = elim (find_session id db) [
  | none ↦ ok db
  | some s ↦ handle_event event idle now s db
]
