-- ===== src/Bson/Iter.antt =====
-- `bson_iter_t`: a walk over the elements of one document or array.
pub mod Values
pub mod Skip
pub mod Bounds
use bsondb.Common.{
  ℕ, ◌+◌, ◌-◌, ◌%◌, List, [], ◌∷◌, Bool, true, false, Option, none, some, ltb, leb, ◌==◌,
  if◌then◌else◌, slice,
}
use bsondb.Common.Int.{ℤ, pos, ltb_ℤ, to_size}
use bsondb.Bson.Result.{
  Result, ok, err, fault, stuck, ◌>>=◌, ◌>>◌, truncated_buffer, invalid_length, invalid_type_byte,
  invalid_utf8, missing_eoo, unsupported_type, document_too_large,
}
use bsondb.Bson.Wire
use bsondb.Bson.Wire.{
  TypeId, double, string, document, array, binary, objectid, bool, datetime, null, int32, int64,
  unsupported, invalid, type_id, doc_min_len, length_prefix_len, objectid_len, eoo_byte,
  max_document_size, size_mod,
}
use bsondb.Bson.Reader
use bsondb.Bson.Reader.{Reader}
use bsondb.Bson.Utf8.{utf8_validate}

-- `type` is the type byte; it and the three offsets hold after `next` returned an element.
pub record Iter : Type 0 where
  pub reader : Reader
  pub doc_end : ℕ
  pub type : ℕ
  pub key_off : ℕ
  pub key_len : ℕ
  pub value_off : ℕ

-- `bson_iter_init_nested`. The sum `offset + doc_len` is taken in `size_t`.
unfoldable pub init_nested : List ℕ → ℕ → ℕ → Result Iter
init_nested buf offset parent_end =
    if ltb parent_end ((offset + doc_min_len) % size_mod) then err truncated_buffer else do
      (doc_len, _) ← Reader.read_i32 (record { buf = buf; len = parent_end; pos = offset })
      if ltb_ℤ doc_len (pos doc_min_len)
          then err invalid_length
          else if ltb max_document_size (to_size doc_len)
          then err document_too_large
          else if ltb parent_end ((offset + to_size doc_len) % size_mod)
          then err truncated_buffer
          else ok (record {
            reader = record { buf = buf; len = parent_end; pos = offset + length_prefix_len };
            doc_end = (offset + to_size doc_len) % size_mod - 1;
            type = 0;
            key_off = 0;
            key_len = 0;
            value_off = 0;
          })

-- `bson_iter_init_document`
unfoldable pub init_document : List ℕ → ℕ → Result Iter
init_document buf len = init_nested buf 0 len

-- The switch of `bson_iter_next`: the cursor behind the value of an element. The document case
-- compares the end with `doc_end`; the others leave that to the test after the switch.
unfoldable pub skip_value : TypeId → Reader → ℕ → Result Reader
skip_value double r doc_end = Reader.skip r 8
skip_value string r doc_end = do
  (slen, r') ← Reader.read_i32 r
  if ltb_ℤ slen (pos 1) then err invalid_length else Reader.skip r' (to_size slen)
skip_value document r doc_end = do
  (dlen, r') ← Reader.read_i32 r
  if ltb_ℤ dlen (pos doc_min_len)
      then err invalid_length
      else if ltb doc_end ((r.pos + to_size dlen) % size_mod)
      then err truncated_buffer
      else ok (record r' { pos = (r.pos + to_size dlen) % size_mod })
skip_value array r doc_end = do
  (dlen, r') ← Reader.read_i32 r
  if ltb_ℤ dlen (pos doc_min_len)
      then err invalid_length
      else if ltb doc_end ((r.pos + to_size dlen) % size_mod)
      then err truncated_buffer
      else ok (record r' { pos = (r.pos + to_size dlen) % size_mod })
skip_value binary r doc_end = do
  (blen, r') ← Reader.read_i32 r
  if ltb_ℤ blen (pos 0)
      then err invalid_length
      else (do r'' ← Reader.skip r' 1; Reader.skip r'' (to_size blen))
skip_value objectid r doc_end = Reader.skip r objectid_len
skip_value bool r doc_end = Reader.skip r 1
skip_value datetime r doc_end = Reader.skip r 8
skip_value null r doc_end = ok r
skip_value int32 r doc_end = Reader.skip r 4
skip_value int64 r doc_end = Reader.skip r 8
skip_value unsupported r doc_end = err unsupported_type
skip_value invalid r doc_end = err invalid_type_byte

-- The end of a document: the EOO byte, and nothing else.
unfoldable pub end_of_document : Result (ℕ × Reader) → Result (Option Iter)
end_of_document (ok (eoo, r)) = if eoo == eoo_byte then ok none else err missing_eoo
end_of_document (err s) = err missing_eoo
end_of_document fault = fault
end_of_document stuck = stuck

-- `bson_iter_next`: `some` is `true`, `none` is `false` at the clean end of the document, and `err` is
-- `false` with that code.
unfoldable pub next : Iter → Result (Option Iter)
next it =
    if leb it.doc_end it.reader.pos
    then (if it.reader.pos == it.doc_end
        then end_of_document (Reader.read_u8 it.reader)
        else err invalid_length)
    else do
      (type, r) ← Reader.read_u8 it.reader
      (key_off, key_len, r') ← Reader.read_cstring_bounded r it.doc_end
      if utf8_validate (slice r'.buf key_off key_len)
          then (do
            r'' ← skip_value (type_id type) r' it.doc_end
            if ltb it.doc_end r''.pos
                then err truncated_buffer
                else ok (
                    some (record {
                      reader = r'';
                      doc_end = it.doc_end;
                      type = type;
                      key_off = key_off;
                      key_len = key_len;
                      value_off = r'.pos;
                    })))
          else err invalid_utf8
