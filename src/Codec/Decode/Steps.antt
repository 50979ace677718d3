-- ===== src/Codec/Decode/Steps.antt =====
-- One call and one round of each loop of `decode`, given what the calls that they make return.
use bsondb.Common.{
  ap, length, slice, from_le, ℕ, suc, ◌+◌, ◌≤◌, ◌≡◌, refl, ◌∙◌, inl, inr, List, true, false, Option,
  none, some, arith, ltb, Bool-cases,
}
use bsondb.Common.Int.{ℤ, ltb_ℤ}
use bsondb.Bson.Result.{
  Result, ok, err, ◌>>=◌, Returns, Returns-bind, Returns-weaken, max_depth_exceeded,
}
use bsondb.Bson.Wire.{
  i64_of, TypeId, double, string, document, array, binary, objectid, datetime, null, int32, int64,
  unsupported, invalid, type_id, max_depth,
}
use bsondb.Bson.Wire
use bsondb.Bson.Reader.Bounds.{IsReader, load_some}
use bsondb.Bson.Iter.{Iter, init_nested, next}
use bsondb.Bson.Iter.Bounds.{IsIter, Stepped, SteppedTo, next_bounds, start}
use bsondb.Bson.Iter.Values.{
  value_reader, value_double, value_utf8, value_document, value_binary, value_objectid, value_bool,
  value_datetime_ms, value_int32, value_int64,
}
use bsondb.Bson.Iter.Values.Bounds.{
  value_double_bounds, value_utf8_bounds, value_document_bounds, value_binary_bounds,
  value_objectid_bounds, value_bool_bounds, value_datetime_ms_bounds, value_int32_bounds,
  value_int64_bounds, ReadsDatetime, IsNested, Skipped,
}
use bsondb.Codec.Calendar.{
  in_python_range, fits_i64, civil_from_days, floordiv_i64, day_ms, datetime_from_epoch_ms,
}
use bsondb.Codec.Calendar.Millis.{first_ms, datetime_from_epoch_ms-late}
use bsondb.Codec.Value.{PyObject, Dict, empty, Items, end}
use bsondb.Codec.Decode.{
  build_value, build_document, document_loop, build_array, array_loop, dict_set, list_append, copy,
}

abbrev pub Any : PyObject → Type 0
Any o = Unit

abbrev pub IsDict : PyObject → Type 0
IsDict o = (d : Dict) × (o ≡ PyObject.dict d)

-- No eight bytes in a row are an `int64_t` below the first whole day.
abbrev pub IsTimely : List ℕ → Type 0
IsTimely buf =
    (i : ℕ) → i + 8 ≤ length buf → ltb_ℤ (i64_of (from_le (slice buf i 8))) first_ms ≡ false

-- An element on which the iterator stands.
pub record IsElement (buf : List ℕ) (it : Iter) : Type 0 where
  pub reader : IsReader (value_reader it)
  pub same_buf : it.reader.buf ≡ buf
  pub timely : IsTimely buf
  pub inside : it.reader.pos ≤ it.reader.len
  pub skipped : (t : TypeId) → type_id it.type ≡ t → Skipped it t

copy_bounds :
    (it : Iter) (off len : ℕ)
    → off + len ≤ length it.reader.buf
    → Returns (λ _. Unit) (copy it off len)
copy_bounds it off len h = let (raw, e) = load_some it.reader.buf off len h in rw e tt

fits_i64-i64_of : (w : ℕ) → fits_i64 (i64_of w) ≡ true
fits_i64-i64_of w = ground arith

datetime_bounds :
    (buf : List ℕ) (it : Iter) (ms : ℤ)
    → IsElement buf it
    → ReadsDatetime it ms
    → Returns (λ _. Unit) (datetime_from_epoch_ms ms)
unfolding datetime_from_epoch_ms
datetime_bounds buf it ms h (inside, read) =
    let late : ltb_ℤ ms first_ms ≡ false =
      ap (λ n. ltb_ℤ n first_ms) read
      ∙ ap (λ b. ltb_ℤ (i64_of (from_le (slice b it.value_off 8))) first_ms) h.same_buf
      ∙ h.timely it.value_off (rw (← h.same_buf) inside) in
    let fits : fits_i64 ms ≡ true =
      ap fits_i64 read ∙ fits_i64-i64_of (from_le (slice it.reader.buf it.value_off 8)) in
    rw (datetime_from_epoch_ms-late ms fits late)
      (elim (Bool-cases (in_python_range (civil_from_days (floordiv_i64 ms day_ms)).year)) [
        | inl e ↦ rw e tt
        | inr e ↦ rw e tt
      ])

-- The obligations of a value: its nested documents.
pub record Nested (fuel : ℕ) (buf : List ℕ) (it : Iter) (depth : ℕ) : Type 0 where
  pub of_document :
      (p : ℕ × ℕ)
      → IsNested it p
      → Returns IsDict (build_document fuel buf p.0 (p.0 + p.1) (depth + 1))
  pub of_array :
      (p : ℕ × ℕ) → IsNested it p → Returns Any (build_array fuel buf p.0 (p.0 + p.1) (depth + 1))

module _ (fuel : ℕ) (buf : List ℕ) (it : Iter) (depth : ℕ) (h : IsElement buf it) where
  pub value_step :
      (t : TypeId)
      → type_id it.type ≡ t
      → Nested fuel buf it depth
      → Returns Any (build_value (suc fuel) buf it depth t)
  unfolding build_value
  value_step double e n =
      Returns-bind _ Any (value_double it) _ (value_double_bounds it h.reader) (λ _ _ _. tt)
  value_step string e n =
      Returns-bind _ Any (value_utf8 it) _ (value_utf8_bounds it h.reader)
        (λ p _ b. Returns-bind _ Any (copy it p.0 p.1) _ (copy_bounds it p.0 p.1 b) (λ _ _ _. tt))
  value_step document e n =
      Returns-bind (IsNested it) Any (value_document it) _
        (value_document_bounds it h.reader (inl (h.skipped document e)))
        (λ p _ k.
          Returns-weaken IsDict Any (build_document fuel buf p.0 (p.0 + p.1) (depth + 1))
            (n.of_document p k) (λ _ _. tt))
  value_step array e n =
      Returns-bind (IsNested it) Any (value_document it) _
        (value_document_bounds it h.reader (inr (h.skipped array e))) (λ p _ k. n.of_array p k)
  value_step binary e n =
      Returns-bind _ Any (value_binary it) _ (value_binary_bounds it h.reader)
        (λ p _ b. Returns-bind _ Any (copy it p.1 p.2) _ (copy_bounds it p.1 p.2 b) (λ _ _ _. tt))
  value_step objectid e n =
      Returns-bind _ Any (value_objectid it) _ (value_objectid_bounds it h.reader)
        (λ off _ b. Returns-bind _ Any (copy it off 12) _ (copy_bounds it off 12 b) (λ _ _ _. tt))
  value_step Wire.bool e n =
      Returns-bind _ Any (value_bool it) _ (value_bool_bounds it h.reader) (λ _ _ _. tt)
  value_step datetime e n =
      Returns-bind _ Any (value_datetime_ms it) _ (value_datetime_ms_bounds it h.reader) (λ ms _ d.
        Returns-bind _ Any (datetime_from_epoch_ms ms) _ (datetime_bounds buf it ms h d)
          (λ _ _ _. tt))
  value_step null e n = tt
  value_step int32 e n =
      Returns-bind _ Any (value_int32 it) _ (value_int32_bounds it h.reader) (λ _ _ _. tt)
  value_step int64 e n =
      Returns-bind _ Any (value_int64 it) _ (value_int64_bounds it h.reader) (λ _ _ _. tt)
  value_step unsupported e n = tt
  value_step invalid e n = tt

-- The reader of a nested document.
pub nested-IsReader :
    (buf : List ℕ) (it : Iter) (p : ℕ × ℕ)
    → IsElement buf it
    → IsNested it p
    → IsReader (start buf p.0 (p.0 + p.1))
unfolding value_reader
nested-IsReader buf it p h n = record {
  at = omega arith;
  within = rw (← h.same_buf) (omega (arith, n.ends, h.inside, h.reader.within));
  fits = omega (arith, n.ends, h.inside, h.reader.fits);
}

pub Stepped-IsElement :
    (buf : List ℕ) (it it' : Iter)
    → IsTimely buf
    → it.reader.buf ≡ buf
    → Stepped it it'
    → IsElement buf it'
unfolding value_reader
Stepped-IsElement buf it it' timely e s = record {
  reader = record {
    at = omega (arith, s.value, s.valid.reader.at);
    within = s.valid.reader.within;
    fits = s.valid.reader.fits;
  };
  same_buf = s.same_buf ∙ e;
  timely = timely;
  inside = s.valid.reader.at;
  skipped = λ t e'. rw (← e') s.skipped;
}

-- One call, with the loop that it starts shut.
pub document_step :
    (fuel : ℕ) (buf : List ℕ) (offset bound depth : ℕ)
    → Returns IsDict (init_nested buf offset bound >>= λ it. document_loop fuel buf it depth empty)
    → Returns IsDict (build_document (suc fuel) buf offset bound depth)
unfolding build_document
document_step fuel buf offset bound depth h =
    elim (ltb max_depth depth)
      as (λ b. Returns IsDict (elim b [
        | true ↦ err max_depth_exceeded
        | false ↦ init_nested buf offset bound >>= λ it. document_loop fuel buf it depth empty
      ])) [ true ↦ tt | false ↦ h ]

pub array_step :
    (fuel : ℕ) (buf : List ℕ) (offset bound depth : ℕ)
    → Returns Any (init_nested buf offset bound >>= λ it. array_loop fuel buf it depth end)
    → Returns Any (build_array (suc fuel) buf offset bound depth)
unfolding build_array
array_step fuel buf offset bound depth h =
    elim (ltb max_depth depth)
      as (λ b. Returns Any (elim b [
        | true ↦ err max_depth_exceeded
        | false ↦ init_nested buf offset bound >>= λ it. array_loop fuel buf it depth end
      ])) [ true ↦ tt | false ↦ h ]

-- One round of each loop, with the value and the next rounds shut.
module _ (fuel : ℕ) (buf : List ℕ) (it : Iter) (depth : ℕ) (h : IsIter it)
    (value : (it' : Iter)
      → Stepped it it'
      → Returns Any (build_value fuel buf it' depth (type_id it'.type))) where
  after_document : Dict → Option Iter → Result PyObject
  after_document d none = ok (PyObject.dict d)
  after_document d (some it') = copy it' it'.key_off it'.key_len >>= λ key.
      build_value fuel buf it' depth (type_id it'.type) >>= λ value.
      document_loop fuel buf it' depth (dict_set d key value)

  pub document_round :
      (d : Dict)
      → ((it' : Iter)
          → Stepped it it'
          → (d' : Dict) → Returns IsDict (document_loop fuel buf it' depth d'))
      → Returns IsDict (document_loop (suc fuel) buf it depth d)
  unfolding document_loop after_document
  document_round d rest =
      Returns-bind (SteppedTo it) IsDict (next it) (after_document d) (next_bounds it h) after
    where
      after :
          (n : Option Iter) → next it ≡ ok n → SteppedTo it n → Returns IsDict (after_document d n)
      after none _ s = (d, refl)
      after (some it') _ s =
          Returns-bind (λ _. Unit) IsDict (copy it' it'.key_off it'.key_len) _
            (copy_bounds it' it'.key_off it'.key_len s.key)
            (λ key _ _. Returns-bind Any IsDict _ _ (value it' s) (λ v _ _. rest it' s _))

  after_array : Items → Option Iter → Result PyObject
  after_array xs none = ok (PyObject.list xs)
  after_array xs (some it') = build_value fuel buf it' depth (type_id it'.type) >>= λ value.
      array_loop fuel buf it' depth (list_append xs value)

  pub array_round :
      (xs : Items)
      → ((it' : Iter)
          → Stepped it it'
          → (xs' : Items) → Returns Any (array_loop fuel buf it' depth xs'))
      → Returns Any (array_loop (suc fuel) buf it depth xs)
  unfolding array_loop after_array
  array_round xs rest =
      Returns-bind (SteppedTo it) Any (next it) (after_array xs) (next_bounds it h) after
    where
      after : (n : Option Iter) → next it ≡ ok n → SteppedTo it n → Returns Any (after_array xs n)
      after none _ s = tt
      after (some it') _ s = Returns-bind Any Any _ _ (value it' s) (λ v _ _. rest it' s _)
