-- ===== src/Btree.antt =====
-- The index files: src/c_engine/btree.c.
pub mod Key
pub mod Layout
pub mod Leaf
pub mod Offsets
pub mod Pages
pub mod Search
pub mod Range
pub mod Insert
pub mod Lifecycle
pub mod Header
pub mod Chain
pub mod Order
pub mod Internal
pub mod Tree
pub mod Index
pub mod Handle
pub mod Tests
