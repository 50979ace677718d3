-- ===== src/Codec.antt =====
-- The codec between Python objects and BSON: src/python_bindings/_bson_core.c.
pub mod Calendar
pub mod Value
pub mod Encode
pub mod Decode
pub mod Tests
