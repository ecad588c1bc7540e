-- ===== src/Table.antt =====
-- The chained hash tables that the lock table, the undo table, the access control list, the name
-- server's file map and the inverted index each write out: an array of chains, walked by comparing
-- a key. Each component states its own key, hash and bucket count as a `Keyed` record, and composes
-- its operations from these walks.
pub mod Chain
pub mod Laws
pub mod Valid
pub mod Sizes
pub mod Found
pub mod Walk
pub mod Same
pub mod Append
