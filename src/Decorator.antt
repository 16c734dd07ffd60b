-- ===== src/Decorator.antt =====
-- django_smart_ratelimit/decorator.py, and what it uses of pipeline.py: the decorator `rate_limit`.
pub mod Pipeline
pub mod Handlers
pub mod Wrapper
pub mod ResetTime
mod Tests
