-- ===== src/Security.antt =====
-- Budgets, approvals, rate limits and permissions of src/security.
pub mod Budget
pub mod Approvals
pub mod RateLimiter
pub mod Rbac
pub mod Quotas
