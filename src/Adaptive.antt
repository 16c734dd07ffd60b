-- ===== src/Adaptive.antt =====
-- django_smart_ratelimit/adaptive.py: limits that follow the load of the system.
pub mod Quotient
pub mod Limiter
pub mod Indicators
mod Tests
