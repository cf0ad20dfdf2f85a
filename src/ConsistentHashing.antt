-- ===== src/ConsistentHashing.antt =====
-- consistent_hashing/internal/data/elements.go: the ring of hashes, the servers, and where a key lives.
pub mod IntMap
pub mod Ring
pub mod Hasher
pub mod Order
pub mod Placement
pub mod Upkeep
pub mod Removal
pub mod Distribution
pub mod Examples
