-- ===== src/Tests.antt =====
-- The properties at concrete inputs.
mod Buffer
mod Domain
mod Session
mod Listener
mod Amm
mod Api
mod Rpc
mod Live
mod Signals
mod Detectors
mod Alarm
mod Shutdown
