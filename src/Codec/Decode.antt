-- ===== src/Codec/Decode.antt =====
-- `decode`: BSON to Python objects. The allocations of the interpreter succeed, and `ObjectId` of twelve
-- bytes keeps them. The fuel is that of the validator, which runs first.
pub mod Steps
pub mod Bounds
use bsondb.Common.{
  ℕ, zero, suc, ◌+◌, List, [], ◌∷◌, Bool, true, false, none, some, ltb, ◌==◌, ◌&&◌, if◌then◌else◌,
  length, slice,
}
use bsondb.Bson.Result.{Result, ok, err, stuck, ◌>>=◌, ◌>>◌, max_depth_exceeded, unsupported_type}
use bsondb.Bson.Wire.{
  TypeId, double, string, document, array, binary, objectid, datetime, null, int32, int64,
  unsupported, invalid, type_id, max_depth, objectid_len,
}
use bsondb.Bson.Wire
use bsondb.Bson.Reader
use bsondb.Bson.Iter.{Iter, init_nested, next}
use bsondb.Bson.Iter.Values.{
  value_double, value_utf8, value_document, value_binary, value_objectid, value_bool,
  value_datetime_ms, value_int32, value_int64,
}
use bsondb.Bson.Validate.{validate_document}
use bsondb.Codec.Calendar.{datetime_from_epoch_ms}
use bsondb.Codec.Value.{PyObject, Dict, empty, entry, Items, end, item, Key, text, Reply, reply}

-- `PyUnicode` equality of keys, by their UTF-8 encodings.
abbrev pub same_text : List ℕ → List ℕ → Bool
same_text [] [] = true
same_text (a ∷ xs) (b ∷ ys) = (a == b) && same_text xs ys
same_text _ _ = false

abbrev pub same_key : List ℕ → Key → Bool
same_key key (text (some utf8)) = same_text key utf8
same_key key _ = false

-- `PyDict_SetItem`: a key that is there keeps its place.
unfoldable pub dict_set : Dict → List ℕ → PyObject → Dict
dict_set empty key value = entry (text (some key)) value empty
dict_set (entry k v d) key value =
    let rest = dict_set d key value in if same_key key k then entry k value d else entry k v rest

-- `PyList_Append`
unfoldable pub list_append : Items → PyObject → Items
list_append end value = item value end
list_append (item x xs) value = item x (list_append xs value)

-- The bytes that the interpreter copies from behind a pointer.
abbrev pub copy : Iter → ℕ → ℕ → Result (List ℕ)
copy it off len = Reader.load it.reader.buf off len

unfoldable mutual
  pub build_value : ℕ → List ℕ → Iter → ℕ → TypeId → Result PyObject
  build_value zero buf it depth type = stuck
  build_value (suc fuel) buf it depth double = do raw ← value_double it; ok (PyObject.float raw)
  build_value (suc fuel) buf it depth string = do
    (off, len) ← value_utf8 it
    raw ← copy it off len
    ok (PyObject.str (some raw))
  build_value (suc fuel) buf it depth document = do
    (off, len) ← value_document it
    build_document fuel buf off (off + len) (depth + 1)
  build_value (suc fuel) buf it depth array = do
    (off, len) ← value_document it
    build_array fuel buf off (off + len) (depth + 1)
  build_value (suc fuel) buf it depth binary = do
    (subtype, off, len) ← value_binary it
    raw ← copy it off len
    ok (PyObject.bytes raw)
  build_value (suc fuel) buf it depth objectid = do
    off ← value_objectid it
    raw ← copy it off objectid_len
    ok (PyObject.object_id (some raw))
  build_value (suc fuel) buf it depth Wire.bool = do b ← value_bool it; ok (PyObject.bool b)
  build_value (suc fuel) buf it depth datetime = do
    ms ← value_datetime_ms it
    t ← datetime_from_epoch_ms ms
    ok (PyObject.datetime t)
  build_value (suc fuel) buf it depth null = ok PyObject.nothing
  build_value (suc fuel) buf it depth int32 = do n ← value_int32 it; ok (PyObject.int n)
  build_value (suc fuel) buf it depth int64 = do n ← value_int64 it; ok (PyObject.int n)
  build_value (suc fuel) buf it depth unsupported = err unsupported_type
  build_value (suc fuel) buf it depth invalid = err unsupported_type

  pub build_document : ℕ → List ℕ → ℕ → ℕ → ℕ → Result PyObject
  build_document zero buf offset parent_end depth = stuck
  build_document (suc fuel) buf offset parent_end depth = elim (ltb max_depth depth) [
    | true ↦ err max_depth_exceeded
    | false ↦ init_nested buf offset parent_end >>= λ it. document_loop fuel buf it depth empty
  ]

  -- `while (bson_iter_next(&iter, err))`
  pub document_loop : ℕ → List ℕ → Iter → ℕ → Dict → Result PyObject
  document_loop zero buf it depth d = stuck
  document_loop (suc fuel) buf it depth d = next it >>= elim [
    | none ↦ ok (PyObject.dict d)
    | some it' ↦ copy it' it'.key_off it'.key_len >>= λ key.
        build_value fuel buf it' depth (type_id it'.type) >>= λ value.
        document_loop fuel buf it' depth (dict_set d key value)
  ]

  pub build_array : ℕ → List ℕ → ℕ → ℕ → ℕ → Result PyObject
  build_array zero buf offset parent_end depth = stuck
  build_array (suc fuel) buf offset parent_end depth = elim (ltb max_depth depth) [
    | true ↦ err max_depth_exceeded
    | false ↦ init_nested buf offset parent_end >>= λ it. array_loop fuel buf it depth end
  ]

  pub array_loop : ℕ → List ℕ → Iter → ℕ → Items → Result PyObject
  array_loop zero buf it depth xs = stuck
  array_loop (suc fuel) buf it depth xs = next it >>= elim [
    | none ↦ ok (PyObject.list xs)
    | some it' ↦ build_value fuel buf it' depth (type_id it'.type) >>= λ value.
        array_loop fuel buf it' depth (list_append xs value)
  ]

-- `py_decode` of a buffer.
unfoldable pub decode : List ℕ → Reply PyObject
decode buf = reply (do
  validate_document buf (length buf)
  build_document (suc (suc (length buf))) buf 0 (length buf) 0)
