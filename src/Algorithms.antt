-- ===== src/Algorithms.antt =====
-- django_smart_ratelimit/algorithms: the token and the leaky bucket over a generic backend.
pub mod Store
pub mod Clock
pub mod TokenBucket
pub mod LeakyBucket
mod Tests
