-- ===== src/Providers.antt =====
-- Calls of a model provider, and what is done when they fail (src/providers).
pub mod TurnRetryState
pub mod CredentialPool
pub mod Failover
pub mod DiscoveryCache
