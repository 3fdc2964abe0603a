-- ===== src/Signals.antt =====
-- crates/signals/src/application: what the detectors find, what a tick emits, and the alarm on the
-- aggregates.
pub mod Engine
pub mod Escalation
pub mod Detectors
pub mod Alarm
pub mod Shutdown
