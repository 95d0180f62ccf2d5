-- ===== src/Machine.antt =====
-- Machine runtime rules (lib/machine-state.ts): the lifecycle of a deposit session under machine
-- events, and the check of the sensor sequence.
mod Session
pub mod Lifecycle
pub mod Sensors
mod Tests
pub use Session.*
unfoldable pub use Session.{
  can_transition_session, machine_accepts_sessions, validate_sensor_sequence,
}
