-- ===== src/Common.antt =====
-- The shared package, libs/common/src/sentinelchain_common.
pub mod Time
pub mod Envelope
pub mod Kafka
pub mod Avro
pub mod Health
pub mod Settings
pub mod Llm
mod Tests
