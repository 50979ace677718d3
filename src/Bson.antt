-- ===== src/Bson.antt =====
-- The BSON engine: src/c_engine/bson_engine.c with include/custom_bson/wire_spec.h and bson_engine.h.
pub mod Result
pub mod Wire
pub mod Reader
pub mod Utf8
pub mod Iter
pub mod Validate
pub mod Writer
mod Tests
