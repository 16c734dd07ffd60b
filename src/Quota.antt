-- ===== src/Quota.antt =====
-- django_smart_ratelimit/quota.py: usage quotas over calendar periods.
pub mod Calendar
pub mod Period
pub mod Ledger
mod Tests
