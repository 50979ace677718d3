-- ===== src/Bson/Wire.antt =====
-- include/custom_bson/wire_spec.h: type bytes and limits.
use bsondb.Common.{ℕ, suc, ◌*◌, ◌-◌, ◌^◌, ltb, ◌==◌, if◌then◌else◌}
use bsondb.Common.Int.{ℤ, pos, negsuc}

abbrev pub doc_min_len : ℕ
doc_min_len = 5

abbrev pub length_prefix_len : ℕ
length_prefix_len = 4

abbrev pub objectid_len : ℕ
objectid_len = 12

abbrev pub eoo_byte : ℕ
eoo_byte = 0

abbrev pub max_document_size : ℕ
max_document_size = 16 * 1024 * 1024

abbrev pub max_depth : ℕ
max_depth = 100

-- `size_t` has 64 bits.
abbrev pub size_mod : ℕ
size_mod = 2 ^ 64

-- The type bytes.
abbrev pub type_double : ℕ
type_double = 0x01

abbrev pub type_string : ℕ
type_string = 0x02

abbrev pub type_document : ℕ
type_document = 0x03

abbrev pub type_array : ℕ
type_array = 0x04

abbrev pub type_binary : ℕ
type_binary = 0x05

abbrev pub type_undefined : ℕ
type_undefined = 0x06

abbrev pub type_objectid : ℕ
type_objectid = 0x07

abbrev pub type_bool : ℕ
type_bool = 0x08

abbrev pub type_datetime : ℕ
type_datetime = 0x09

abbrev pub type_null : ℕ
type_null = 0x0a

abbrev pub type_regex : ℕ
type_regex = 0x0b

abbrev pub type_dbpointer : ℕ
type_dbpointer = 0x0c

abbrev pub type_js_code : ℕ
type_js_code = 0x0d

abbrev pub type_symbol : ℕ
type_symbol = 0x0e

abbrev pub type_js_code_w_scope : ℕ
type_js_code_w_scope = 0x0f

abbrev pub type_int32 : ℕ
type_int32 = 0x10

abbrev pub type_timestamp : ℕ
type_timestamp = 0x11

abbrev pub type_int64 : ℕ
type_int64 = 0x12

abbrev pub type_decimal128 : ℕ
type_decimal128 = 0x13

abbrev pub type_minkey : ℕ
type_minkey = 0xff

abbrev pub type_maxkey : ℕ
type_maxkey = 0x7f

-- The labels of the switch over the type byte. `unsupported` stands for the nine types that the
-- header marks as deferred, `invalid` for the default case.
pub data TypeId : Type 0 where
  double string document array binary objectid bool datetime null int32 int64 : TypeId
  unsupported invalid : TypeId

unfoldable pub type_id : ℕ → TypeId
type_id b =
    if b == type_double
    then double
    else if b == type_string
    then string
    else if b == type_document
    then document
    else if b == type_array
    then array
    else if b == type_binary
    then binary
    else if b == type_objectid
    then objectid
    else if b == type_bool
    then bool
    else if b == type_datetime
    then datetime
    else if b == type_null
    then null
    else if b == type_int32
    then int32
    else if b == type_int64
    then int64
    else if b == type_undefined
    then unsupported
    else if b == type_regex
    then unsupported
    else if b == type_dbpointer
    then unsupported
    else if b == type_js_code
    then unsupported
    else if b == type_symbol
    then unsupported
    else if b == type_js_code_w_scope
    then unsupported
    else if b == type_timestamp
    then unsupported
    else if b == type_decimal128
    then unsupported
    else if b == type_maxkey
    then unsupported
    else if b == type_minkey
    then unsupported
    else invalid

-- The `int32_t` and `int64_t` with the given bit pattern (two's complement).
abbrev pub i32_of : ℕ → ℤ
i32_of w = if ltb w (2 ^ 31) then pos w else negsuc (2 ^ 32 - w - 1)

abbrev pub i64_of : ℕ → ℤ
i64_of w = if ltb w (2 ^ 63) then pos w else negsuc (2 ^ 64 - w - 1)

-- The bit patterns of an `int32_t` and an `int64_t`.
abbrev pub u32_of : ℤ → ℕ
u32_of (pos n) = n
u32_of (negsuc n) = 2 ^ 32 - suc n

abbrev pub u64_of : ℤ → ℕ
u64_of (pos n) = n
u64_of (negsuc n) = 2 ^ 64 - suc n
