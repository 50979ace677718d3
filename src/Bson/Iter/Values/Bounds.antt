-- ===== src/Bson/Iter/Values/Bounds.antt =====
-- The value getters read inside the buffer, and a nested document lies inside the enclosing one.
use bsondb.Common.{
  ℕ, ◌+◌, ◌-◌, ◌%◌, ◌^◌, ◌≤◌, ◌<◌, ◌≡◌, ◌⊎◌, refl, sym, ap, ◌∙◌, inl, inr, Bool, true, false, arith,
  tests, ltb, length, ◌==◌, ◌||◌, if◌then◌else◌, slice, from_le, Bool-cases,
}
use bsondb.Common.Int.{ℤ, pos, negsuc, pos_part, ltb_ℤ, to_size}
use bsondb.Bson.Result.{Result, ok, err, truncated_buffer, invalid_type_byte, Returns, Returns-bind}
use bsondb.Bson.Wire.{
  i64_of, TypeId, document, array, doc_min_len, size_mod, type_bool, type_double, type_string,
  type_document, type_array, type_binary, type_objectid, type_datetime, type_int32, type_int64,
}
use bsondb.Bson.Reader
use bsondb.Bson.Reader.{Reader}
use bsondb.Bson.Reader.Bounds.{
  IsReader, Moved, Moved-IsReader, remaining_lem, load-slice, byte_at_some, read_u8_bounds,
  read_i32_bounds, read_i64_bounds, read_double_bounds, read_bytes_bounds,
}
use bsondb.Bson.Utf8.{utf8_validate}
use bsondb.Bson.Iter.{Iter, skip_value}
use bsondb.Bson.Iter.Values.{
  value_reader, value_double, value_utf8, value_document, value_binary, value_objectid, value_bool,
  value_datetime_ms, value_int32, value_int64,
}

-- A getter that checks the type byte first.
guarded :
    {A : Type 0} (P : A → Type 0) (b : Bool) (m : Result A)
    → Returns P m
    → Returns P (if b then m else err invalid_type_byte)
guarded P true m h = h
guarded P false m h = tt

-- A datetime is an eight-byte integer of the buffer.
abbrev pub ReadsDatetime : Iter → ℤ → Type 0
ReadsDatetime it ms =
    (it.value_off + 8 ≤ length it.reader.buf)
    × (ms ≡ i64_of (from_le (slice it.reader.buf it.value_off 8)))

module _ (it : Iter) (h : IsReader (value_reader it)) where
  pub value_double_bounds : Returns (λ _. Unit) (value_double it)
  unfolding value_double
  value_double_bounds = guarded _ (it.type == type_double) _ (
      Returns-bind _ (λ _. Unit) (Reader.read_double (value_reader it)) _
        (read_double_bounds (value_reader it) h) (λ _ _ _. tt))

  pub value_bool_bounds : Returns (λ _. Unit) (value_bool it)
  unfolding value_bool
  value_bool_bounds = guarded _ (it.type == type_bool) _ (
      Returns-bind _ (λ _. Unit) (Reader.read_u8 (value_reader it)) _
        (read_u8_bounds (value_reader it) h) (λ _ _ _. tt))

  pub value_int32_bounds : Returns (λ _. Unit) (value_int32 it)
  unfolding value_int32
  value_int32_bounds = guarded _ (it.type == type_int32) _ (
      Returns-bind _ (λ _. Unit) (Reader.read_i32 (value_reader it)) _
        (read_i32_bounds (value_reader it) h) (λ _ _ _. tt))

  pub value_int64_bounds : Returns (λ _. Unit) (value_int64 it)
  unfolding value_int64
  value_int64_bounds = guarded _ (it.type == type_int64) _ (
      Returns-bind _ (λ _. Unit) (Reader.read_i64 (value_reader it)) _
        (read_i64_bounds (value_reader it) h) (λ _ _ _. tt))

  pub value_datetime_ms_bounds : Returns (ReadsDatetime it) (value_datetime_ms it)
  unfolding value_datetime_ms Reader.read_i64 value_reader
  value_datetime_ms_bounds =
      guarded _ (it.type == type_datetime) _
        (elim (Bool-cases (ltb (Reader.remaining (value_reader it)) 8)) [
          | inl e ↦ rw e tt
          | inr e ↦
              let inside = read_inside e in
              rw (e, load-slice it.reader.buf it.value_off 8 inside) (inside, refl)
        ])
    where
      read_inside :
          ltb (Reader.remaining (value_reader it)) 8 ≡ false
          → it.value_off + 8 ≤ length it.reader.buf
      read_inside e = omega (tests, e, remaining_lem (value_reader it) h, h)

  -- The bytes that are handed out lie in the buffer.
  pub value_objectid_bounds : Returns (λ off. off + 12 ≤ length it.reader.buf) (value_objectid it)
  unfolding value_objectid value_reader
  value_objectid_bounds = guarded _ (it.type == type_objectid) _ (
      Returns-bind _ _ (Reader.read_bytes (value_reader it) 12) _
        (read_bytes_bounds (value_reader it) h 12)
        (λ _ _ b. omega (arith, b.0, b.1.moved, b.1.in_bounds, h.within)))

  pub value_binary_bounds : Returns (λ p. p.1 + p.2 ≤ length it.reader.buf) (value_binary it)
  unfolding value_binary value_reader
  value_binary_bounds = guarded _ (it.type == type_binary) _ (
      Returns-bind _ _ (Reader.read_i32 (value_reader it)) _ (read_i32_bounds (value_reader it) h)
        λ (blen, r) _ m. elim (Bool-cases (ltb_ℤ blen (pos 0))) [
          | inl e ↦ rw e tt
          | inr e ↦ rw e (
              Returns-bind _ _ (Reader.read_u8 r) _ (read_u8_bounds r (Moved-IsReader h m.0))
                λ (subtype, r') _ m'.
                  Returns-bind _ _ (Reader.read_bytes r' (to_size blen)) _
                    (read_bytes_bounds r' (Moved-IsReader (Moved-IsReader h m.0) m') (to_size blen))
                    (λ _ _ b.
                      omega (
                        arith, b.0, b.1.moved, b.1.in_bounds, h.within, m.0.same_len, m'.same_len,
                      )))
        ])

  pub value_utf8_bounds : Returns (λ p. p.0 + p.1 ≤ length it.reader.buf) (value_utf8 it)
  unfolding value_utf8 value_reader
  value_utf8_bounds = guarded _ (it.type == type_string) _ (
      Returns-bind _ _ (Reader.read_i32 (value_reader it)) _ (read_i32_bounds (value_reader it) h)
        λ (slen, r) _ m. elim (Bool-cases (ltb_ℤ slen (pos 1))) [
          | inl e ↦ rw e tt
          | inr e ↦ rw e (
              Returns-bind _ _ (Reader.read_bytes r (to_size slen)) _
                (read_bytes_bounds r (Moved-IsReader h m.0) (to_size slen))
                λ (bytes, r') _ b.
                  let (last, there) =
                    byte_at_some it.reader.buf (bytes + (to_size slen - 1))
                      (text_inside slen r r' bytes e m.0 b) in
                  rw there (elim (Bool-cases (last == 0)) [
                    | inl z ↦
                        rw z
                          (elim (Bool-cases
                            (utf8_validate (slice it.reader.buf bytes (to_size slen - 1)))) [
                              | inl u ↦ rw u (omega (arith, text_inside slen r r' bytes e m.0 b))
                              | inr u ↦ rw u tt
                            ])
                    | inr z ↦ rw z tt
                  ]))
        ])
    where
      text_inside :
          (slen : ℤ) (r r' : Reader) (bytes : ℕ)
          → ltb_ℤ slen (pos 1) ≡ false
          → Moved (value_reader it) r 4
          → (bytes ≡ r.pos) × Moved r r' (to_size slen)
          → bytes + (to_size slen - 1) < length it.reader.buf
      text_inside (pos n) r r' bytes e m (start, m') =
          omega (tests, e, h.within, h.fits, m.same_len, m'.moved, m'.in_bounds, start)
      text_inside (negsuc n) r r' bytes e m b = absurd (ground arith)

-- A nested document starts at the value, and ends where the cursor stands.
pub record IsNested (it : Iter) (p : ℕ × ℕ) : Type 0 where
  pub off : p.0 ≡ it.value_off
  pub ends : p.0 + p.1 ≤ it.reader.pos

-- The test of `skip_value` on the end of a nested document.
abbrev up_to : Reader → ℕ → ℕ → Bool → Result Reader
up_to r doc_end end over = if over then err truncated_buffer else ok (record r { pos = end })

-- The length that is read there is the one over which the cursor was moved.
length_skipped :
    (r r' r'' : Reader) (doc_end : ℕ) (dlen : ℤ)
    → IsReader r
    → pos_part dlen < 2 ^ 31
    → ltb_ℤ dlen (pos doc_min_len) ≡ false
    → up_to r' doc_end
        ((r.pos + to_size dlen) % size_mod)
        (ltb doc_end ((r.pos + to_size dlen) % size_mod))
      ≡ ok r''
    → r.pos + to_size dlen ≤ r''.pos
length_skipped r r' r'' doc_end (negsuc n) h small e s = absurd (ground arith)
length_skipped r r' r'' doc_end (pos n) h small e s =
    let end = (r.pos + n) % size_mod in
    elim (Bool-cases (ltb doc_end end)) [
      | inl t ↦ absurd (cc (sym (ap (up_to r' doc_end end) t) ∙ s))
      | inr f ↦
          let there : end ≡ r''.pos = ap pos_of (sym (ap (up_to r' doc_end end) f) ∙ s) in
          omega (arith, there, h.at, h.fits, small)
    ]
  where
    pos_of : Result Reader → ℕ
    pos_of (ok r) = r.pos
    pos_of _ = 0

-- What `next` has seen of a nested document.
abbrev pub Skipped : Iter → TypeId → Type 0
Skipped it t = skip_value t (value_reader it) it.doc_end ≡ ok it.reader

module _ (it : Iter) (h : IsReader (value_reader it)) where
  Skipped-document : Skipped it document ⊎ Skipped it array → Skipped it document
  unfolding skip_value
  Skipped-document (inl s) = s
  Skipped-document (inr s) = s

  IsNested-inside :
      (dlen : ℤ) (r : Reader)
      → Reader.read_i32 (value_reader it) ≡ ok (dlen, r)
      → pos_part dlen < 2 ^ 31
      → ltb_ℤ dlen (pos doc_min_len) ≡ false
      → Skipped it document
      → IsNested it (it.value_off, to_size dlen)
  unfolding skip_value value_reader
  IsNested-inside dlen r e small least s =
      let end = (it.value_off + to_size dlen) % size_mod in
      let computed : skip_value document (value_reader it) it.doc_end
          ≡ up_to r it.doc_end end (ltb it.doc_end end) =
        rw (e, least) in
      record {
        off = refl;
        ends =
            length_skipped (value_reader it) r it.reader it.doc_end dlen h small least
              (sym computed ∙ s);
      }

  pub value_document_bounds :
      Skipped it document ⊎ Skipped it array → Returns (IsNested it) (value_document it)
  unfolding value_document
  value_document_bounds s = guarded _ (it.type == type_document || it.type == type_array) _ (
      Returns-bind _ (IsNested it) (Reader.read_i32 (value_reader it)) _
        (read_i32_bounds (value_reader it) h)
        λ (dlen, r) e m. elim (Bool-cases (ltb_ℤ dlen (pos doc_min_len))) [
          | inl t ↦ rw t tt
          | inr f ↦ rw f (IsNested-inside dlen r e m.1 f (Skipped-document s))
        ])
