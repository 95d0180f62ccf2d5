-- ===== src/Machine/Session.antt =====
-- The tables and functions of lib/machine-state.ts. An action that no table names is `unknown_action`.
use re_loop.Base.{ℕ, Bool, true, false, Option, none, some, List, [], ◌∷◌, ltb, if◌then◌else◌}

pub data SessionStatus : Type 0 where
  reserved active processing_item in_review completed cancelled expired : SessionStatus

pub data SessionAction : Type 0 where
  activate start_item item_done finish anomaly resume expire cancel safe_state unknown_action :
      SessionAction

-- `canTransitionSession`, which reads `SESSION_TRANSITIONS`.
unfoldable pub can_transition_session : SessionStatus → SessionAction → Option SessionStatus
can_transition_session reserved activate = some active
can_transition_session reserved cancel = some cancelled
can_transition_session reserved expire = some expired
can_transition_session active start_item = some processing_item
can_transition_session active finish = some completed
can_transition_session active anomaly = some in_review
can_transition_session active expire = some expired
can_transition_session active cancel = some cancelled
can_transition_session active safe_state = some in_review
can_transition_session processing_item item_done = some active
can_transition_session processing_item finish = some completed
can_transition_session processing_item anomaly = some in_review
can_transition_session processing_item safe_state = some in_review
can_transition_session processing_item expire = some expired
can_transition_session in_review finish = some completed
can_transition_session in_review resume = some active
can_transition_session _ _ = none

-- The steps of the expected path, and any other text.
pub data SensorStep : Type 0 where
  chamber_open item_present weight_stable image_captured conveyor_forward acceptance_point :
      SensorStep
  other_step : SensorStep

-- The index in `EXPECTED_SENSOR_STEPS`; `none` for -1.
unfoldable pub expected_index : SensorStep → Option ℕ
expected_index chamber_open = some 0
expected_index item_present = some 1
expected_index weight_stable = some 2
expected_index image_captured = some 3
expected_index conveyor_forward = some 4
expected_index acceptance_point = some 5
expected_index other_step = none

pub data SensorAnomaly : Type 0 where
  reverse_motion retrieval_attempt impossible_sequence : SensorAnomaly

pub record SensorSequencePayload : Type 0 where
  pub steps : List SensorStep
  pub reverse_motion_seen : Bool
  pub retrieval_attempt_seen : Bool
  pub impossible_sequence_seen : Bool

-- The loop. The index of a step is never below 0, so 0 stands for the -1 before the first step.
unfoldable pub walk : ℕ → List SensorStep → Option SensorAnomaly
walk last [] = none
walk last (s ∷ l) = elim (expected_index s) [
  | none ↦ walk last l
  | some i ↦ elim (ltb i last) [ true ↦ some impossible_sequence | false ↦ walk i l ]
]

unfoldable pub validate_sensor_sequence : Option SensorSequencePayload → Option SensorAnomaly
validate_sensor_sequence none = none
validate_sensor_sequence (some p) =
    if p.reverse_motion_seen
    then some reverse_motion
    else if p.retrieval_attempt_seen
    then some retrieval_attempt
    else if p.impossible_sequence_seen
    then some impossible_sequence
    else walk 0 p.steps

pub data MachineStatus : Type 0 where
  online offline full maintenance error_status : MachineStatus

unfoldable pub machine_accepts_sessions : MachineStatus → Bool
machine_accepts_sessions online = true
machine_accepts_sessions _ = false
