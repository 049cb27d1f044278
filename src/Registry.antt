-- ===== src/Registry.antt =====
-- internal/infrastructure/registry: the parser of registry data and the client of its sources.
pub mod Errors
pub mod Source
pub mod Parser
pub mod Exchange
pub mod Official
pub mod Client
pub mod Reported
pub mod Blocked
