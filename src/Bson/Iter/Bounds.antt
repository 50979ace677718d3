-- ===== src/Bson/Iter/Bounds.antt =====
-- Walking a document never reads outside its buffer, and every element moves the cursor on.
use bsondb.Common.{
  ℕ, ◌+◌, ◌-◌, ◌%◌, ◌^◌, ◌≤◌, ◌<◌, ◌≡◌, refl, ap, ◌∙◌, inl, inr, List, false, Option, none, some,
  arith, ltb, leb, ◌==◌, if◌then◌else◌, length, slice, Bool-cases, ltb→le,
}
use bsondb.Common.Int.{ℤ, pos, negsuc, pos_part, ltb_ℤ, to_size}
use bsondb.Bson.Result.{
  truncated_buffer, Result, ok, err, fault, stuck, ◌>>=◌, Returns, Returns-bind,
}
use bsondb.Bson.Wire.{type_id, doc_min_len, max_document_size, size_mod}
use bsondb.Bson.Reader
use bsondb.Bson.Reader.{Reader}
use bsondb.Bson.Reader.Bounds.{
  IsReader, Moved, Moved-IsReader, read_u8_bounds, read_i32_bounds, IsCstring,
  read_cstring_bounded_bounds,
}
use bsondb.Bson.Utf8.{utf8_validate}
use bsondb.Bson.Iter.{Iter, init_nested, skip_value, end_of_document, next}
use bsondb.Bson.Iter.Skip.{Advanced, Advanced-IsReader, skip_value_bounds}

-- An iterator over a document that lies in its buffer with the EOO byte.
pub record IsIter (it : Iter) : Type 0 where
  pub reader : IsReader it.reader
  pub inside : it.doc_end < it.reader.len
  pub before : it.reader.pos ≤ it.doc_end

same_reader :
    (r r' : Reader)
    → r'.buf ≡ r.buf
    → r'.len ≡ r.len
    → record { buf = r'.buf; len = r'.len; pos = r.pos } ≡ r
same_reader r r' e e' = λ i. record { buf = e i; len = e' i; pos = r.pos }

-- The new iterator walks the same document, and has taken two bytes at least.
pub record Stepped (it it' : Iter) : Type 0 where
  pub valid : IsIter it'
  pub same_buf : it'.reader.buf ≡ it.reader.buf
  pub same_len : it'.reader.len ≡ it.reader.len
  pub same_end : it'.doc_end ≡ it.doc_end
  pub onward : it.reader.pos + 2 ≤ it'.value_off
  pub value : it'.value_off ≤ it'.reader.pos
  pub key : it'.key_off + it'.key_len ≤ length it'.reader.buf
  -- The cursor stands where the value that starts at `value_off` ends.
  pub skipped :
      skip_value (type_id it'.type) (record it'.reader { pos = it'.value_off }) it'.doc_end
      ≡ ok it'.reader

abbrev pub SteppedTo : Iter → Option Iter → Type 0
SteppedTo it none = Unit
SteppedTo it (some it') = Stepped it it'

-- At the end of the document too the outcome is a status.
end_of_document_bounds :
    (it : Iter) (P : ℕ × Reader → Type 0) (m : Result (ℕ × Reader))
    → Returns P m
    → Returns (SteppedTo it) (end_of_document m)
unfolding end_of_document
end_of_document_bounds it P (ok (eoo, r)) h = elim (Bool-cases (eoo == 0)) [
  | inl e ↦ rw e tt
  | inr e ↦ rw e tt
]
end_of_document_bounds it P (err s) h = tt
end_of_document_bounds it P fault h = h
end_of_document_bounds it P stuck h = h

-- One element: the type byte, the key up to its NUL, and the value.
module _ (it : Iter) (h : IsIter it) (type : ℕ) (r : Reader) (m : Moved it.reader r 1) where
  at_type : IsReader r
  at_type = Moved-IsReader h.reader m

  element : ℕ × ℕ × Reader → Reader → Iter
  element p r'' = record {
    reader = r'';
    doc_end = it.doc_end;
    type = type;
    key_off = p.0;
    key_len = p.1;
    value_off = p.2.pos;
  }

  Stepped-element :
      (p : ℕ × ℕ × Reader) (r'' : Reader)
      → IsCstring r it.doc_end p
      → Advanced p.2 r''
      → skip_value (type_id type) p.2 it.doc_end ≡ ok r''
      → ltb it.doc_end r''.pos ≡ false
      → Stepped it (element p r'')
  unfolding element
  Stepped-element p r'' c a s e = record {
    valid = record {
      reader = Advanced-IsReader (Moved-IsReader at_type c.moved) a;
      inside = omega (arith, h.inside, m.same_len, c.moved.same_len, a.same_len);
      before = ltb→le _ _ e;
    };
    same_buf = a.same_buf ∙ c.moved.same_buf ∙ m.same_buf;
    same_len = a.same_len ∙ c.moved.same_len ∙ m.same_len;
    same_end = refl;
    onward = omega (arith, m.moved, c.moved.moved);
    value = a.onward;
    key =
        rw (a.same_buf, c.moved.same_buf)
          (omega (arith, c.off, c.moved.moved, c.moved.in_bounds, at_type.within));
    skipped =
        ap (λ r'. skip_value (type_id type) r' it.doc_end)
          (same_reader p.2 r'' a.same_buf a.same_len)
        ∙ s;
  }

  value_bounds :
      (p : ℕ × ℕ × Reader)
      → IsCstring r it.doc_end p
      → Returns (SteppedTo it) (
          skip_value (type_id type) p.2 it.doc_end >>= (λ r''.
            if ltb it.doc_end r''.pos then err truncated_buffer else ok (some (element p r''))))
  value_bounds p c =
      Returns-bind (Advanced p.2) (SteppedTo it) (skip_value (type_id type) p.2 it.doc_end) _
        (skip_value_bounds p.2 (Moved-IsReader at_type c.moved) it.doc_end
          (omega (arith, h.inside, m.same_len, c.moved.same_len)) (type_id type))
        λ r'' s a. elim (Bool-cases (ltb it.doc_end r''.pos)) [
          | inl e ↦ rw e tt
          | inr e ↦ rw e (Stepped-element p r'' c a s e)
        ]

-- From an iterator inside its document `next` reads inside the buffer and comes back; an element
-- leaves the iterator inside the document, two bytes further on at least.
pub next_bounds : (it : Iter) → IsIter it → Returns (SteppedTo it) (next it)
unfolding next element
next_bounds it h = elim (Bool-cases (leb it.doc_end it.reader.pos)) [
  | inl e ↦ rw e (elim (Bool-cases (it.reader.pos == it.doc_end)) [
    | inl e' ↦
        rw e' (
          end_of_document_bounds it _ (Reader.read_u8 it.reader)
            (read_u8_bounds it.reader h.reader))
    | inr e' ↦ rw e' tt
  ])
  | inr e ↦ rw e (
      Returns-bind _ (SteppedTo it) (Reader.read_u8 it.reader) _ (read_u8_bounds it.reader h.reader)
        λ (type, r) _ m.
          Returns-bind _ (SteppedTo it) (Reader.read_cstring_bounded r it.doc_end) _
            (read_cstring_bounded_bounds r (Moved-IsReader h.reader m) it.doc_end)
            λ p _ c. elim (Bool-cases (utf8_validate (slice p.2.buf p.0 p.1))) [
              | inl u ↦ rw u (value_bounds it h type r m p c)
              | inr u ↦ rw u tt
            ])
]

-- A fresh iterator over the document at `offset`, which lies before `parent_end`.
pub record Opened (buf : List ℕ) (offset parent_end : ℕ) (it : Iter) : Type 0 where
  pub valid : IsIter it
  pub same_buf : it.reader.buf ≡ buf
  pub same_len : it.reader.len ≡ parent_end
  pub onward : it.reader.pos ≡ offset + 4
  pub nonempty : offset + 5 ≤ it.doc_end + 1
  pub bounded : it.doc_end < offset + max_document_size

abbrev pub start : List ℕ → ℕ → ℕ → Reader
start buf offset parent_end = record { buf = buf; len = parent_end; pos = offset }

module _ (buf : List ℕ) (offset parent_end : ℕ) (h : IsReader (start buf offset parent_end)) where
  Opened-at :
      (dlen : ℤ)
      → pos_part dlen < 2 ^ 31
      → ltb_ℤ dlen (pos doc_min_len) ≡ false
      → ltb max_document_size (to_size dlen) ≡ false
      → ltb parent_end ((offset + to_size dlen) % size_mod) ≡ false
      → Opened buf offset parent_end (record {
        reader = record { buf = buf; len = parent_end; pos = offset + 4 };
        doc_end = (offset + to_size dlen) % size_mod - 1;
        type = 0;
        key_off = 0;
        key_len = 0;
        value_off = 0;
      })
  Opened-at (pos n) small e₁ e₂ e₃ = record {
    valid = record {
      reader = record {
        at = omega (arith, low, whole, ltb→le _ _ e₃);
        within = h.within;
        fits = h.fits;
      };
      inside = omega (arith, low, whole, ltb→le _ _ e₃);
      before = omega (arith, low, whole);
    };
    same_buf = refl;
    same_len = refl;
    onward = refl;
    nonempty = omega (arith, low, whole);
    bounded = omega (arith, low, whole, ltb→le _ _ e₂);
  }
    where
      low : 5 ≤ n
      low = ground arith

      whole : (offset + n) % 2 ^ 64 ≡ offset + n
      whole = omega (arith, h.at, h.fits)
  Opened-at (negsuc n) small e₁ e₂ e₃ = absurd (ground arith)

  -- A document header at `offset` is read inside the buffer, and the document that it opens ends
  -- inside the enclosing one.
  pub init_nested_bounds :
      Returns (Opened buf offset parent_end) (init_nested buf offset parent_end)
  unfolding init_nested
  init_nested_bounds = elim (Bool-cases (ltb parent_end ((offset + doc_min_len) % size_mod))) [
    | inl e ↦ rw e tt
    | inr e ↦ rw e (
        Returns-bind _ (Opened buf offset parent_end)
          (Reader.read_i32 (start buf offset parent_end)) _
          (read_i32_bounds (start buf offset parent_end) h)
          λ (dlen, r') _ m. elim (Bool-cases (ltb_ℤ dlen (pos doc_min_len))) [
            | inl e₁ ↦ rw e₁ tt
            | inr e₁ ↦ rw e₁ (elim (Bool-cases (ltb max_document_size (to_size dlen))) [
              | inl e₂ ↦ rw e₂ tt
              | inr e₂ ↦
                  rw e₂ (elim (Bool-cases (ltb parent_end ((offset + to_size dlen) % size_mod))) [
                    | inl e₃ ↦ rw e₃ tt
                    | inr e₃ ↦ rw e₃ (Opened-at dlen m.1 e₁ e₂ e₃)
                  ])
            ])
          ])
  ]
