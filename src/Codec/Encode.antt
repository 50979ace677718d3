-- ===== src/Codec/Encode.antt =====
-- `encode`: Python objects to BSON. The allocations of the interpreter succeed; those of the writer are
-- `can_alloc`.
use bsondb.Common.{
  ℕ, zero, suc, ◌+◌, ◌-◌, ◌*◌, ◌/◌, ◌%◌, ◌^◌, List, [], ◌∷◌, Bool, true, false, Option, none, some,
  ltb, not, ◌==◌, ◌||◌, ◌&&◌, if◌then◌else◌, length,
}
use bsondb.Common.Int.{ℤ, pos, negsuc, ltb_ℤ}
use bsondb.Bson.Result
use bsondb.Bson.Result.{
  Result, Status, ok, err, fault, stuck, max_depth_exceeded, value_out_of_range,
  unsupported_python_type, invalid_key,
}
use bsondb.Bson.Wire.{
  max_depth, objectid_len, type_double, type_string, type_document, type_array, type_binary,
  type_objectid, type_bool, type_datetime, type_null, type_int32, type_int64,
}
use bsondb.Bson.Writer
use bsondb.Bson.Writer.{Writer}
use bsondb.Codec.Calendar.{datetime_to_epoch_ms}
use bsondb.Codec.Value.{
  PyObject, nothing, bool, int, float, str, bytes, object_id, datetime, dict, list, other, Dict,
  empty, entry, Items, end, item, Key, text, other_key, type_error, memory_error, pending,
  bson_error_to_python, Reply, returned, raised, reply, ◌>>=◌,
}

-- A status that the encoder reports itself.
abbrev pub fails : {A : Type 0} → Status → Reply A
fails s = raised (bson_error_to_python s)

abbrev pub binary_subtype_generic : ℕ
binary_subtype_generic = 0

abbrev pub int32_min : ℤ
int32_min = negsuc (2 ^ 31 - 1)

-- `memchr(kstr, 0, klen) != NULL`
abbrev pub has_nul : List ℕ → Bool
has_nul [] = false
has_nul (b ∷ bs) = (b == 0) || has_nul bs

-- `snprintf("%zd", i)`: the decimal digits, of which a `size_t` has 20 at most.
unfoldable pub digits : ℕ → ℕ → List ℕ → List ℕ
digits zero i acc = acc
digits (suc fuel) i acc =
    let more = digits fuel (i / 10) ((48 + i % 10) ∷ acc) in
    if ltb i 10 then (48 + i % 10) ∷ acc else more

abbrev pub index_key : ℕ → List ℕ
index_key i = digits 20 i []

module _ (can_alloc : ℕ → Bool) where
  -- The header of an element, then its value.
  abbrev pub put_element : Writer → ℕ → List ℕ → (Writer → Result Writer) → Reply Writer
  put_element w type key value =
      reply (Result.◌>>=◌ (Writer.append_element_header can_alloc w type key) value)

  -- A value that is no document and no array.
  unfoldable pub put_int : Writer → List ℕ → ℤ → Reply Writer
  put_int w key n =
      if ltb_ℤ n (negsuc (2 ^ 63 - 1)) || ltb_ℤ (pos (2 ^ 63 - 1)) n
      then fails value_out_of_range
      else if not (ltb_ℤ n int32_min) && not (ltb_ℤ (pos (2 ^ 31 - 1)) n)
      then put_element w type_int32 key (λ w'. Writer.append_int32 can_alloc w' n)
      else put_element w type_int64 key (λ w'. Writer.append_int64 can_alloc w' n)

  unfoldable pub put_str : Writer → List ℕ → Option (List ℕ) → Reply Writer
  put_str w key none = raised pending
  put_str w key (some utf8) =
      put_element w type_string key (λ w'. Writer.append_utf8 can_alloc w' utf8)

  -- The attribute `binary` is missing, or it is not of twelve bytes.
  unfoldable pub put_object_id : Writer → List ℕ → Option (List ℕ) → Reply Writer
  put_object_id w key none = raised pending
  put_object_id w key (some oid) =
      if not (length oid == objectid_len)
      then fails unsupported_python_type
      else put_element w type_objectid key (λ w'. Writer.append_objectid can_alloc w' oid)

  unfoldable pub put_datetime : Writer → List ℕ → Option ℤ → Reply Writer
  put_datetime w key none = raised pending
  put_datetime w key (some ms) =
      put_element w type_datetime key (λ w'. Writer.append_datetime_ms can_alloc w' ms)

  -- A key of a dict that is encoded.
  unfoldable pub key_bytes : Key → Reply (List ℕ)
  key_bytes other_key = fails invalid_key
  key_bytes (text none) = raised pending
  key_bytes (text (some utf8)) = if has_nul utf8 then fails invalid_key else returned utf8

  -- The frame of `encode_document_body` and `encode_array_body`: the depth, the length that is patched in,
  -- and the elements between.
  unfoldable pub nested : Writer → ℕ → (Writer → Reply Writer) → Reply Writer
  nested w depth elements = elim (ltb max_depth depth) [
    | true ↦ fails max_depth_exceeded
    | false ↦ reply (Writer.begin_document can_alloc w) >>= λ (patch, w₁).
        elements w₁ >>= λ w₂. reply (Writer.end_document can_alloc w₂ patch)
  ]

  unfoldable mutual
    pub encode_element : Writer → List ℕ → PyObject → ℕ → Reply Writer
    encode_element w key nothing depth =
        put_element w type_null key (λ w'. Writer.append_null can_alloc w')
    encode_element w key (bool b) depth =
        put_element w type_bool key (λ w'. Writer.append_bool can_alloc w' b)
    encode_element w key (int n) depth = put_int w key n
    encode_element w key (float raw) depth =
        put_element w type_double key (λ w'. Writer.append_double can_alloc w' raw)
    encode_element w key (str s) depth = put_str w key s
    encode_element w key (bytes b) depth =
        put_element w type_binary key
          (λ w'. Writer.append_binary can_alloc w' binary_subtype_generic b)
    encode_element w key (object_id oid) depth = put_object_id w key oid
    encode_element w key (datetime t) depth = put_datetime w key (datetime_to_epoch_ms t)
    encode_element w key (dict d) depth =
        reply (Writer.append_element_header can_alloc w type_document key) >>= λ w'.
        nested w' depth (λ w''. encode_entries w'' d depth)
    encode_element w key (list xs) depth =
        reply (Writer.append_element_header can_alloc w type_array key) >>= λ w'.
        nested w' depth (λ w''. encode_items w'' xs 0 depth)
    encode_element w key other depth = fails unsupported_python_type

    -- `while (PyDict_Next(...))`
    pub encode_entries : Writer → Dict → ℕ → Reply Writer
    encode_entries w empty depth = returned w
    encode_entries w (entry key value d) depth = key_bytes key >>= λ utf8.
        encode_element w utf8 value (depth + 1) >>= λ w'. encode_entries w' d depth

    pub encode_items : Writer → Items → ℕ → ℕ → Reply Writer
    encode_items w end i depth = returned w
    encode_items w (item value xs) i depth =
        encode_element w (index_key i) value (depth + 1) >>= λ w'. encode_items w' xs (i + 1) depth

  unfoldable pub encode_document_body : Writer → Dict → ℕ → Reply Writer
  encode_document_body w d depth = nested w depth (λ w'. encode_entries w' d depth)

  -- `PyDict_Size`
  abbrev pub dict_size : Dict → ℕ
  dict_size empty = 0
  dict_size (entry key value d) = dict_size d + 1

  -- What `py_encode` makes of the writer.
  abbrev pub released : Reply Writer → Reply (List ℕ)
  released r = r >>= λ w. returned (Writer.release w).0

  -- `py_encode`
  unfoldable pub encode : PyObject → Reply (List ℕ)
  encode (dict d) = elim (Writer.writer_init can_alloc ((256 + dict_size d * 32) % 2 ^ 64)) [
    | ok w ↦ released (encode_document_body w d 0)
    | _ ↦ raised memory_error
  ]
  encode _ = raised type_error
