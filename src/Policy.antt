-- ===== src/Policy.antt =====
-- django_smart_ratelimit/policy.
pub mod Lists
pub mod Client
pub mod Check
pub mod Membership
pub mod Refresh
pub mod Spoofing
pub mod Precedence
mod Tests
