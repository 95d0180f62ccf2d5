-- ===== src/Machine/Tests.antt =====
-- Runs of lib/machine-state.ts: a session from its reservation to its end, and a good sensor path.
use re_loop.Base.{◌≡◌, ◌↔◌, refl, false, none, some, List, [], ◌∷◌}
use re_loop.Machine.Session.{
  reserved, completed, SessionAction, activate, start_item, item_done, finish,
  can_transition_session, SensorSequencePayload, chamber_open, weight_stable, acceptance_point,
  validate_sensor_sequence,
}
use re_loop.Machine.Lifecycle.{after_events}
use re_loop.Machine.Sensors.{Ascends, indices, validate_iff-Ascends}

abbrev deposit : List SessionAction
deposit = activate ∷ start_item ∷ item_done ∷ finish ∷ []

ends : after_events reserved deposit ≡ completed
unfolding after_events can_transition_session
ends = refl

abbrev good_path : SensorSequencePayload
good_path = record {
  steps = chamber_open ∷ weight_stable ∷ acceptance_point ∷ [];
  reverse_motion_seen = false;
  retrieval_attempt_seen = false;
  impossible_sequence_seen = false;
}

validate_iff-Ascends_example :
    (validate_sensor_sequence (some good_path) ≡ none)
    ↔ ((false ≡ false) × (false ≡ false) × (false ≡ false) × Ascends 0 (indices good_path.steps))
validate_iff-Ascends_example = validate_iff-Ascends good_path
