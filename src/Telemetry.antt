-- ===== src/Telemetry.antt =====
-- src/system/telemetry/goldstone/system/telemetry: the streaming telemetry server.
pub mod Store
pub mod Path
pub mod Config
pub mod Subscription
pub mod Server
