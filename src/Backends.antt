-- ===== src/Backends.antt =====
-- django_smart_ratelimit/backends.
pub mod Base
pub mod Utils
pub mod Memory
pub mod Multi
mod Tests
