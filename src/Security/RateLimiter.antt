-- ===== src/Security/RateLimiter.antt =====
-- The limiter of requests (src/security/rateLimiter.ts).
pub mod Keys
pub mod Limiter
pub mod Window
pub mod Hits
mod Tests
