-- ===== src/Codec/Value.antt =====
-- Python objects, as far as _bson_core.c looks at them, and what it raises. An object that contains
-- itself is not one of these: it counts as its unfolding, of which the code sees the first levels.
use bsondb.Common.{ℕ, List, Bool, Option}
use bsondb.Common.Int.{ℤ}
use bsondb.Bson.Result.{
  Result, Status, ok, err, fault, stuck, out_of_memory, value_out_of_range, unsupported_type,
  unsupported_python_type, invalid_key, document_too_large,
}
use bsondb.Codec.Calendar.{DateTime}

-- `nothing` is None. A string is its UTF-8 encoding; `none` is one that has none (it holds a lone surrogate). `other_key` is
-- a key that is no string, `other` an object of a type that has no BSON type. An ObjectId is its attribute
-- `binary`, where it has one; what is no bytes object counts as one of a wrong length. `bytes` stands for bytes and bytearray, `list` for list and tuple.
mutual
  pub data PyObject : Type 0 where
    nothing : PyObject
    bool : Bool → PyObject
    int : ℤ → PyObject
    float : ℕ → PyObject
    str : Option (List ℕ) → PyObject
    bytes : List ℕ → PyObject
    object_id : Option (List ℕ) → PyObject
    datetime : DateTime → PyObject
    dict : Dict → PyObject
    list : Items → PyObject
    other : PyObject

  pub data Dict : Type 0 where
    empty : Dict
    entry : Key → PyObject → Dict → Dict

  pub data Items : Type 0 where
    end : Items
    item : PyObject → Items → Items

  pub data Key : Type 0 where
    text : Option (List ℕ) → Key
    other_key : Key

-- The exceptions of `bson_error_to_python`, and the interpreter's own where one is set already.
pub data Exception : Type 0 where
  memory_error overflow_error not_implemented_error invalid_document : Exception
  document_too_large_error invalid_bson type_error pending : Exception

unfoldable pub bson_error_to_python : Status → Exception
bson_error_to_python out_of_memory = memory_error
bson_error_to_python value_out_of_range = overflow_error
bson_error_to_python unsupported_type = not_implemented_error
bson_error_to_python unsupported_python_type = invalid_document
bson_error_to_python invalid_key = invalid_document
bson_error_to_python document_too_large = document_too_large_error
bson_error_to_python _ = invalid_bson

-- What Python sees of a call.
pub data Reply {ℓ} (A : Type ℓ) : Type ℓ where
  returned : A → Reply A
  raised : Exception → Reply A
  crashed : Reply A
  hung : Reply A

abbrev pub reply {ℓ} : {A : Type ℓ} → Result A → Reply A
reply (ok a) = returned a
reply (err s) = raised (bson_error_to_python s)
reply fault = crashed
reply stuck = hung

infixl 5 ◌>>=◌
abbrev pub ◌>>=◌ {ℓ κ} : {A : Type ℓ} {B : Type κ} → Reply A → (A → Reply B) → Reply B
returned a >>= f = f a
raised e >>= f = raised e
crashed >>= f = crashed
hung >>= f = hung
