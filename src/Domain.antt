-- ===== src/Domain.antt =====
-- internal/domain: URLs, blocking rules, registry entries and the registry.
pub mod Url
pub mod Blocking
pub mod Registry
