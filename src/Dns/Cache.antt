-- ===== src/Dns/Cache.antt =====
-- core/dns/cache.go
pub mod Ttl
pub mod Lru
pub mod Index
pub mod Ops
pub mod Prefetch
pub mod Branches
pub mod Invariant
pub mod Refinement
pub mod Reads
pub mod Lifetimes
pub mod Stored
