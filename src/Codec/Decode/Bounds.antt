-- ===== src/Codec/Decode/Bounds.antt =====
-- `decode` never reads outside its buffer, and always comes back.
use bsondb.Common.{
  ℕ, zero, suc, ◌+◌, ◌-◌, ◌^◌, ◌<◌, ◌≡◌, ◌⊎◌, refl, ◌∙◌, inl, inr, List, arith, length,
}
use bsondb.Bson.Result.{Result, ok, err, fault, stuck, Returns, Returns-bind}
use bsondb.Bson.Wire.{type_id}
use bsondb.Bson.Reader.Bounds.{IsReader}
use bsondb.Bson.Iter.{Iter, init_nested}
use bsondb.Bson.Iter.Bounds.{IsIter, Opened, init_nested_bounds, start}
use bsondb.Bson.Validate.{validate_document}
use bsondb.Bson.Validate.Bounds.{validate_document_bounds}
use bsondb.Codec.Value.{
  PyObject, Dict, empty, Items, end, Exception, Reply, returned, raised, reply,
}
use bsondb.Codec.Decode.{
  build_value, build_document, document_loop, build_array, array_loop, decode,
}
use bsondb.Codec.Decode.Steps.{
  Any, IsDict, IsElement, IsTimely, value_step, nested-IsReader, Stepped-IsElement, document_step,
  array_step, document_round, array_round,
}

-- The fuel is more than the bytes that are left.
mutual
  value_bounds :
      (fuel : ℕ) (buf : List ℕ) (it : Iter) (depth : ℕ)
      → IsElement buf it
      → suc (it.reader.pos - it.value_off) < fuel
      → Returns Any (build_value fuel buf it depth (type_id it.type))
  value_bounds zero buf it depth h hf = absurd (omega arith)
  value_bounds (suc fuel) buf it depth h hf =
      value_step fuel buf it depth h (type_id it.type) refl (record {
        of_document = λ p n.
            document_bounds fuel buf p.0 (p.0 + p.1) (depth + 1) h.timely
              (nested-IsReader buf it p h n) (omega (arith, n.off, n.ends));
        of_array = λ p n.
            array_bounds fuel buf p.0 (p.0 + p.1) (depth + 1) h.timely
              (nested-IsReader buf it p h n) (omega (arith, n.off, n.ends));
      })

  document_bounds :
      (fuel : ℕ) (buf : List ℕ) (offset bound depth : ℕ)
      → IsTimely buf
      → IsReader (start buf offset bound)
      → bound - offset < fuel
      → Returns IsDict (build_document fuel buf offset bound depth)
  document_bounds zero buf offset bound depth timely h hf = absurd (omega arith)
  document_bounds (suc fuel) buf offset bound depth timely h hf =
      document_step fuel buf offset bound depth (
        Returns-bind (Opened buf offset bound) IsDict (init_nested buf offset bound) _
          (init_nested_bounds buf offset bound h)
          λ it _ o.
            document_loop_bounds fuel buf it depth empty timely o.valid o.same_buf
              (omega (arith, o.onward, o.nonempty, o.valid.inside, o.same_len)))

  document_loop_bounds :
      (fuel : ℕ) (buf : List ℕ) (it : Iter) (depth : ℕ) (d : Dict)
      → IsTimely buf
      → IsIter it
      → it.reader.buf ≡ buf
      → it.doc_end - it.reader.pos < fuel
      → Returns IsDict (document_loop fuel buf it depth d)
  document_loop_bounds zero buf it depth d timely h e hf = absurd (omega arith)
  document_loop_bounds (suc fuel) buf it depth d timely h e hf =
      document_round fuel buf it depth h
        (λ it' s.
          value_bounds fuel buf it' depth (Stepped-IsElement buf it it' timely e s)
            (omega (arith, s.onward, s.value, s.valid.before, s.same_end)))
        d
        (λ it' s d'.
          document_loop_bounds fuel buf it' depth d' timely s.valid (s.same_buf ∙ e)
            (omega (arith, s.onward, s.value, s.valid.before, s.same_end)))

  array_bounds :
      (fuel : ℕ) (buf : List ℕ) (offset bound depth : ℕ)
      → IsTimely buf
      → IsReader (start buf offset bound)
      → bound - offset < fuel
      → Returns Any (build_array fuel buf offset bound depth)
  array_bounds zero buf offset bound depth timely h hf = absurd (omega arith)
  array_bounds (suc fuel) buf offset bound depth timely h hf =
      array_step fuel buf offset bound depth (
        Returns-bind (Opened buf offset bound) Any (init_nested buf offset bound) _
          (init_nested_bounds buf offset bound h)
          λ it _ o.
            array_loop_bounds fuel buf it depth end timely o.valid o.same_buf
              (omega (arith, o.onward, o.nonempty, o.valid.inside, o.same_len)))

  array_loop_bounds :
      (fuel : ℕ) (buf : List ℕ) (it : Iter) (depth : ℕ) (xs : Items)
      → IsTimely buf
      → IsIter it
      → it.reader.buf ≡ buf
      → it.doc_end - it.reader.pos < fuel
      → Returns Any (array_loop fuel buf it depth xs)
  array_loop_bounds zero buf it depth xs timely h e hf = absurd (omega arith)
  array_loop_bounds (suc fuel) buf it depth xs timely h e hf =
      array_round fuel buf it depth h
        (λ it' s.
          value_bounds fuel buf it' depth (Stepped-IsElement buf it it' timely e s)
            (omega (arith, s.onward, s.value, s.valid.before, s.same_end)))
        xs
        (λ it' s xs'.
          array_loop_bounds fuel buf it' depth xs' timely s.valid (s.same_buf ∙ e)
            (omega (arith, s.onward, s.value, s.valid.before, s.same_end)))

-- A dict, or an exception.
abbrev pub Decodes : Reply PyObject → Type 0
Decodes r = ((d : Dict) × (r ≡ returned (PyObject.dict d))) ⊎ ((e : Exception) × (r ≡ raised e))

Returns-reply : (m : Result PyObject) → Returns IsDict m → Decodes (reply m)
Returns-reply (ok o) (d, e) = inl (d, rw e)
Returns-reply (err s) h = inr (_, refl)
Returns-reply fault h = absurd h
Returns-reply stuck h = absurd h

-- On any bytes, fewer than 2 ^ 63, of which no eight in a row are an `int64_t` below -9223372036828800000
-- (a datetime of that value overflows): `decode` returns a dict or raises an exception. Every byte that it
-- reads through the cursor or copies is one of the buffer, no sum overflows, and its loops and its
-- recursion come to an end.
pub decode_safe : (buf : List ℕ) → length buf < 2 ^ 63 → IsTimely buf → Decodes (decode buf)
unfolding decode
decode_safe buf small timely = Returns-reply _ (
    Returns-bind (λ _. Unit) IsDict (validate_document buf (length buf)) _
      (validate_document_bounds buf (length buf) (omega arith) small)
      λ _ _ _.
        document_bounds (suc (suc (length buf))) buf 0 (length buf) 0 timely
          (record { at = omega arith; within = omega arith; fits = small }) (omega arith))
