-- ===== src/Storage.antt =====
-- internal/infrastructure/storage: the radix tree, the Bloom filter and the store over them.
pub mod Radix
pub mod Bloom
pub mod Dict
pub mod MemoryStore
