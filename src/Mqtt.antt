-- ===== src/Mqtt.antt =====
-- internal/mqtt: what the bridge tells Home Assistant.
pub mod Discovery
pub mod Bridge
mod Examples
