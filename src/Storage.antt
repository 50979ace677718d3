-- ===== src/Storage.antt =====
-- The collection data file: src/c_engine/storage.c and scanner.c.
pub mod Format
pub mod Scan
pub mod Header
pub mod Image
pub mod Access
pub mod Counters
pub mod Append
pub mod Growth
pub mod Resize
pub mod Records
pub mod Scanner
pub mod Handle
pub mod Lookup
pub mod Tombstone
pub mod Walk
pub mod Recovery
pub mod Tests
