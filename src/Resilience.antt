-- ===== src/Resilience.antt =====
-- The resilience primitives of libs/common/src/sentinelchain_common/resilience.py: retries with
-- exponential backoff, and the circuit breaker.
pub mod Retry
pub mod Operation
pub mod Breaker
mod Tests
