-- ===== src/Bson/Tests.antt =====
-- Concrete runs of the engine, and its theorems at concrete inputs.
use bsondb.Common.{ℕ, ◌≡◌, ◌≢◌, refl, List, [], ◌∷◌, true, false, arith, from_le, All, ◌↔◌}
use bsondb.Bson.Result.{ok, fault, stuck, Returns}
use bsondb.Bson.Utf8.{utf8_validate, utf8_loop, lead, continuation, acceptable, sequence}
use bsondb.Bson.Utf8.Scalars.{IsScalar, utf8_encode_all}
use bsondb.Bson.Utf8.Accepts.{utf8_validate_iff}
use bsondb.Bson.Validate.{validate_document, validate_recursive}
use bsondb.Bson.Validate.Bounds.{validate_document_safe}
use bsondb.Bson.Wire.{type_id}
use bsondb.Bson.Reader
use bsondb.Bson.Iter
use bsondb.Bson.Iter.{Iter}
use bsondb.Bson.Iter.Bounds.{IsIter, SteppedTo, next_bounds}
use bsondb.Bson.Writer.{Writer, put_bytes}
use bsondb.Bson.Writer.Capacity.{IsWriter, Put, put_bytes_cases}

-- {"a": 1} with an int32.
abbrev one_field : List ℕ
one_field = 12 ∷ 0 ∷ 0 ∷ 0 ∷ 0x10 ∷ 0x61 ∷ 0 ∷ 1 ∷ 0 ∷ 0 ∷ 0 ∷ 0 ∷ []

accepts_one_field : validate_document one_field 12 ≡ ok tt
unfolding validate_document validate_recursive Iter.init_nested Iter.next Iter.skip_value
    Iter.end_of_document Reader.read_i32 Reader.read_u8 Reader.read_cstring_bounded Reader.scan_nul
    Reader.load Reader.remaining Reader.skip utf8_validate utf8_loop type_id from_le
accepts_one_field = refl

-- The same with a string whose payload is one byte that is no UTF-8 and no NUL: also accepted.
abbrev bad_string : List ℕ
bad_string = 13 ∷ 0 ∷ 0 ∷ 0 ∷ 0x02 ∷ 0x61 ∷ 0 ∷ 1 ∷ 0 ∷ 0 ∷ 0 ∷ 0xff ∷ 0 ∷ []

accepts_bad_string : validate_document bad_string 13 ≡ ok tt
unfolding validate_document validate_recursive Iter.init_nested Iter.next Iter.skip_value
    Iter.end_of_document Reader.read_i32 Reader.read_u8 Reader.read_cstring_bounded Reader.scan_nul
    Reader.load Reader.remaining Reader.skip utf8_validate utf8_loop type_id from_le
accepts_bad_string = refl

validate_document_safe_example :
    (validate_document bad_string 12 ≢ fault) × (validate_document bad_string 12 ≢ stuck)
validate_document_safe_example = validate_document_safe bad_string 12 (omega arith) (omega arith)

-- U+20AC, the euro sign.
utf8_validate_iff_example :
    (utf8_validate (0xe2 ∷ 0x82 ∷ 0xac ∷ []) ≡ true)
    ↔ ((cs : List ℕ) × All IsScalar cs × ((0xe2 ∷ 0x82 ∷ 0xac ∷ []) ≡ utf8_encode_all cs))
utf8_validate_iff_example = utf8_validate_iff (0xe2 ∷ 0x82 ∷ 0xac ∷ []) (omega arith)

accepts_euro : utf8_validate (0xe2 ∷ 0x82 ∷ 0xac ∷ []) ≡ true
unfolding utf8_validate utf8_loop lead sequence continuation acceptable
accepts_euro = refl

-- A surrogate half and an overlong form are refused.
refuses_surrogate : utf8_validate (0xed ∷ 0xa0 ∷ 0x80 ∷ []) ≡ false
unfolding utf8_validate utf8_loop lead sequence continuation acceptable
refuses_surrogate = refl

refuses_overlong : utf8_validate (0xc0 ∷ 0x80 ∷ []) ≡ false
unfolding utf8_validate utf8_loop lead sequence continuation acceptable
refuses_overlong = refl

abbrev small_writer : Writer
small_writer = record { buf = 1 ∷ 2 ∷ []; cap = 16 }

small_writer-IsWriter : IsWriter small_writer
small_writer-IsWriter = omega arith

put_bytes_cases_example :
    Put (λ n. true) small_writer (3 ∷ []) (put_bytes (λ n. true) small_writer (3 ∷ []))
put_bytes_cases_example =
    put_bytes_cases (λ n. true) small_writer small_writer-IsWriter (3 ∷ []) (omega arith)

abbrev first_iter : Iter
first_iter = record {
  reader = record { buf = one_field; len = 12; pos = 4 };
  doc_end = 11;
  type = 0;
  key_off = 0;
  key_len = 0;
  value_off = 0;
}

first_iter-IsIter : IsIter first_iter
first_iter-IsIter = record {
  reader = record { at = omega arith; within = omega arith; fits = omega arith };
  inside = omega arith;
  before = omega arith;
}

next_bounds_example : Returns (SteppedTo first_iter) (Iter.next first_iter)
next_bounds_example = next_bounds first_iter first_iter-IsIter
