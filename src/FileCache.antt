-- ===== src/FileCache.antt =====
-- filecache/filecache.go: a key-value store in one file, `key=value` items separated by `:`.
-- The loops over the items are in Items; the proofs are in the other children.
pub mod Items
pub mod Store
pub mod Laws
pub mod Access
pub mod Remove
mod Tests
