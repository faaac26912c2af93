-- ===== src/Observability.antt =====
-- internal/observability: what the operator reports to Sentry, and how often.
pub mod Limiter
pub mod Reporter
