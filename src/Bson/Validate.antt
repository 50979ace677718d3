-- ===== src/Bson/Validate.antt =====
-- `validate_recursive` and `bson_validate_document`. The fuel bounds the chain of calls and rounds;
-- each round takes two bytes at least, so one more than the bytes of the buffer is enough (`Bounds`).
pub mod Bounds
use bsondb.Common.{
  ℕ, zero, suc, ◌+◌, List, Bool, true, false, Option, none, some, ltb, ◌==◌, ◌||◌, if◌then◌else◌,
}
use bsondb.Bson.Result.{
  Result, ok, err, stuck, ◌>>=◌, ◌>>◌, truncated_buffer, trailing_bytes, max_depth_exceeded,
}
use bsondb.Bson.Wire.{doc_min_len, max_depth, type_document, type_array}
use bsondb.Bson.Iter.{Iter, init_nested, next}

abbrev pub is_nested : ℕ → Bool
is_nested type = type == type_document || type == type_array

unfoldable mutual
  -- The output is the offset behind the document.
  pub validate_recursive : ℕ → List ℕ → ℕ → ℕ → ℕ → Result ℕ
  validate_recursive zero buf offset bound depth = stuck
  validate_recursive (suc fuel) buf offset bound depth = elim (ltb max_depth depth) [
    | true ↦ err max_depth_exceeded
    | false ↦ init_nested buf offset bound >>= λ it. validate_loop fuel buf it depth
  ]

  -- `while (bson_iter_next(&iter, err))`, and what follows the loop.
  pub validate_loop : ℕ → List ℕ → Iter → ℕ → Result ℕ
  validate_loop zero buf it depth = stuck
  validate_loop (suc fuel) buf it depth = next it >>= elim [
    | none ↦ ok (it.doc_end + 1)
    | some it' ↦ elim (is_nested it'.type) [
      | true ↦ validate_recursive fuel buf it'.value_off it'.doc_end (depth + 1) >>= λ child_end.
          validate_loop fuel buf it' depth
      | false ↦ validate_loop fuel buf it' depth
    ]
  ]

unfoldable pub validate_document : List ℕ → ℕ → Result (Unit {0})
validate_document buf len = if ltb len doc_min_len then err truncated_buffer else do
  doc_end ← validate_recursive (suc len) buf 0 len 0
  if doc_end == len then ok tt else err trailing_bytes
