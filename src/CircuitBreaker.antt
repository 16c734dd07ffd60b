-- ===== src/CircuitBreaker.antt =====
-- django_smart_ratelimit/circuit_breaker.py and circuit_breaker_state.py.
pub mod Storage
pub mod Stats
pub mod Breaker
pub mod Spec
pub mod Refines
pub mod Run
pub mod Laws
pub mod Counting
pub mod Call
pub mod Registry
mod Tests
