-- ===== src/Tests.antt =====
-- Concrete platforms and registries, runs of the model on them, and each theorem at an input that
-- meets its hypotheses.
mod Platforms
mod Stores
mod Registries
mod Sources
mod Officials
mod Names
mod Spellings
mod Schedulers
mod Deliveries
mod Systems
mod Boots
mod Exits
