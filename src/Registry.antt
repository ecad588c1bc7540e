-- ===== src/Registry.antt =====
-- nameserver/nameserver.c: where files are. The LRU cache, the file map, the replication map, and
-- the choice of a storage server. The name server runs one `select` loop, so its calls do not
-- interleave.
pub mod Cache
pub mod Known
pub mod Recency
pub mod FileMap
pub mod Routing
pub mod Lookup
pub mod Uncached
pub mod Upkeep
pub mod Placement
pub mod Coherence
pub mod Tests
