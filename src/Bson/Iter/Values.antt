-- ===== src/Bson/Iter/Values.antt =====
-- The value getters `bson_iter_value_*`: each reads again from `value_off`, with its own checks.
pub mod Bounds
use bsondb.Common.{ℕ, ◌+◌, ◌-◌, Bool, not, ◌==◌, ◌||◌, if◌then◌else◌, slice}
use bsondb.Common.Int.{ℤ, pos, ltb_ℤ, to_size}
use bsondb.Bson.Result.{
  Result, ok, err, ◌>>=◌, byte_at, invalid_type_byte, invalid_length, unterminated_string,
  invalid_utf8,
}
use bsondb.Bson.Wire.{
  doc_min_len, objectid_len, type_double, type_string, type_document, type_array, type_binary,
  type_objectid, type_bool, type_datetime, type_int32, type_int64,
}
use bsondb.Bson.Reader
use bsondb.Bson.Reader.{Reader}
use bsondb.Bson.Utf8.{utf8_validate}
use bsondb.Bson.Iter.{Iter}

-- `iter_value_reader`
unfoldable pub value_reader : Iter → Reader
value_reader it = record { buf = it.reader.buf; len = it.reader.len; pos = it.value_off }

unfoldable pub value_double : Iter → Result ℕ
value_double it =
    if it.type == type_double
    then (do (v, _) ← Reader.read_double (value_reader it); ok v)
    else err invalid_type_byte

-- The outputs are the offset of the text and its length without the NUL.
unfoldable pub value_utf8 : Iter → Result (ℕ × ℕ)
value_utf8 it =
    if it.type == type_string
    then (do
      (slen, r) ← Reader.read_i32 (value_reader it)
      if ltb_ℤ slen (pos 1) then err invalid_length else (do
        (bytes, _) ← Reader.read_bytes r (to_size slen)
        last ← byte_at it.reader.buf (bytes + (to_size slen - 1))
        if last == 0
            then (if utf8_validate (slice it.reader.buf bytes (to_size slen - 1))
                then ok (bytes, to_size slen - 1)
                else err invalid_utf8)
            else err unterminated_string))
    else err invalid_type_byte

-- The outputs are the offset and the length of the nested document.
unfoldable pub value_document : Iter → Result (ℕ × ℕ)
value_document it =
    if it.type == type_document || it.type == type_array
    then (do
      (dlen, _) ← Reader.read_i32 (value_reader it)
      if ltb_ℤ dlen (pos doc_min_len) then err invalid_length else ok (it.value_off, to_size dlen))
    else err invalid_type_byte

-- The outputs are the subtype, and the offset and the length of the data.
unfoldable pub value_binary : Iter → Result (ℕ × ℕ × ℕ)
value_binary it =
    if it.type == type_binary
    then (do
      (blen, r) ← Reader.read_i32 (value_reader it)
      if ltb_ℤ blen (pos 0) then err invalid_length else (do
        (subtype, r') ← Reader.read_u8 r
        (bytes, _) ← Reader.read_bytes r' (to_size blen)
        ok (subtype, bytes, to_size blen)))
    else err invalid_type_byte

-- The output is the offset of the twelve bytes.
unfoldable pub value_objectid : Iter → Result ℕ
value_objectid it =
    if it.type == type_objectid
    then (do (oid, _) ← Reader.read_bytes (value_reader it) objectid_len; ok oid)
    else err invalid_type_byte

unfoldable pub value_bool : Iter → Result Bool
value_bool it =
    if it.type == type_bool
    then (do (b, _) ← Reader.read_u8 (value_reader it); ok (not (b == 0)))
    else err invalid_type_byte

unfoldable pub value_datetime_ms : Iter → Result ℤ
value_datetime_ms it =
    if it.type == type_datetime
    then (do (v, _) ← Reader.read_i64 (value_reader it); ok v)
    else err invalid_type_byte

unfoldable pub value_int32 : Iter → Result ℤ
value_int32 it =
    if it.type == type_int32
    then (do (v, _) ← Reader.read_i32 (value_reader it); ok v)
    else err invalid_type_byte

unfoldable pub value_int64 : Iter → Result ℤ
value_int64 it =
    if it.type == type_int64
    then (do (v, _) ← Reader.read_i64 (value_reader it); ok v)
    else err invalid_type_byte
