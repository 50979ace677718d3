-- ===== src/Bson/Iter/Skip.antt =====
-- The value that `bson_iter_next` steps over: the cursor moves on inside its buffer.
use bsondb.Common.{
  ℕ, ◌+◌, ◌%◌, ◌^◌, ◌≤◌, ◌<◌, ◌≡◌, refl, ◌∙◌, inl, inr, false, arith, tests, ltb, Bool-cases,
}
use bsondb.Common.Int.{ℤ, pos, negsuc, pos_part, ltb_ℤ, to_size}
use bsondb.Bson.Result.{Returns, Returns-bind, Returns-weaken}
use bsondb.Bson.Wire.{
  TypeId, double, string, document, array, binary, objectid, bool, datetime, null, int32, int64,
  unsupported, invalid, doc_min_len, size_mod,
}
use bsondb.Bson.Reader
use bsondb.Bson.Reader.{Reader}
use bsondb.Bson.Reader.Bounds.{IsReader, Moved, read_i32_bounds, skip_bounds}
use bsondb.Bson.Iter.{skip_value}

-- The cursor went on in the same buffer, and stayed inside its length.
pub record Advanced (r r' : Reader) : Type 0 where
  pub same_buf : r'.buf ≡ r.buf
  pub same_len : r'.len ≡ r.len
  pub onward : r.pos ≤ r'.pos
  pub in_bounds : r'.pos ≤ r.len

Moved-Advanced : {r r' : Reader} {n : ℕ} → Moved r r' n → Advanced r r'
Moved-Advanced m = record {
  same_buf = m.same_buf;
  same_len = m.same_len;
  onward = omega (arith, m.moved);
  in_bounds = m.in_bounds;
}

pub Advanced-trans : {r r' r'' : Reader} → Advanced r r' → Advanced r' r'' → Advanced r r''
Advanced-trans h k = record {
  same_buf = k.same_buf ∙ h.same_buf;
  same_len = k.same_len ∙ h.same_len;
  onward = omega (arith, h.onward, k.onward);
  in_bounds = omega (arith, k.in_bounds, h.same_len);
}

pub Advanced-IsReader : {r r' : Reader} → IsReader r → Advanced r r' → IsReader r'
Advanced-IsReader {r} {r'} h m = record {
  at = omega (arith, m.in_bounds, m.same_len);
  within = rw (m.same_len, m.same_buf) h.within;
  fits = rw m.same_len h.fits;
}

skip-Advanced : (r : Reader) (n : ℕ) → IsReader r → Returns (Advanced r) (Reader.skip r n)
skip-Advanced r n h =
    Returns-weaken _ _ (Reader.skip r n) (skip_bounds r h n) (λ r'. Moved-Advanced)

-- The same after a first step from `r` to `r'`.
skip_from :
    (r r' : Reader) (n : ℕ) → IsReader r → Advanced r r' → Returns (Advanced r) (Reader.skip r' n)
skip_from r r' n h m =
    Returns-weaken _ _ (Reader.skip r' n) (skip-Advanced r' n (Advanced-IsReader h m))
      (λ r''. Advanced-trans m)

-- The end of a nested document, which is compared with the end of the enclosing one.
nested_end :
    (r r' : Reader) (doc_end : ℕ) (dlen : ℤ)
    → IsReader r
    → doc_end ≤ r.len
    → Moved r r' 4 × (pos_part dlen < 2 ^ 31)
    → ltb_ℤ dlen (pos doc_min_len) ≡ false
    → ltb doc_end ((r.pos + to_size dlen) % size_mod) ≡ false
    → Advanced r (record r' { pos = (r.pos + to_size dlen) % size_mod })
nested_end r r' doc_end (pos n) h inside (m, small) p q = record {
  same_buf = m.same_buf;
  same_len = m.same_len;
  onward = omega (arith, h.at, h.fits);
  in_bounds = omega (tests, inside);
}
nested_end r r' doc_end (negsuc n) h inside (m, small) p q = absurd (ground arith)

module _ (r : Reader) (h : IsReader r) (doc_end : ℕ) (inside : doc_end ≤ r.len) where
  document_bounds : Returns (Advanced r) (skip_value document r doc_end)
  unfolding skip_value
  document_bounds =
      Returns-bind _ (Advanced r) (Reader.read_i32 r) _ (read_i32_bounds r h) λ (dlen, r') _ m.
        elim (Bool-cases (ltb_ℤ dlen (pos doc_min_len))) [
          | inl e ↦ rw e tt
          | inr e ↦ rw e (elim (Bool-cases (ltb doc_end ((r.pos + to_size dlen) % size_mod))) [
            | inl e' ↦ rw e' tt
            | inr e' ↦ rw e' (nested_end r r' doc_end dlen h inside m e e')
          ])
        ]

  pub skip_value_bounds : (t : TypeId) → Returns (Advanced r) (skip_value t r doc_end)
  unfolding skip_value
  skip_value_bounds double = skip-Advanced r 8 h
  skip_value_bounds string =
      Returns-bind _ (Advanced r) (Reader.read_i32 r) _ (read_i32_bounds r h) λ (slen, r') _ m.
        elim (Bool-cases (ltb_ℤ slen (pos 1))) [
          | inl e ↦ rw e tt
          | inr e ↦ rw e (skip_from r r' (to_size slen) h (Moved-Advanced m.0))
        ]
  skip_value_bounds document = document_bounds
  skip_value_bounds array = document_bounds
  skip_value_bounds binary =
      Returns-bind _ (Advanced r) (Reader.read_i32 r) _ (read_i32_bounds r h) λ (blen, r') _ m.
        elim (Bool-cases (ltb_ℤ blen (pos 0))) [
          | inl e ↦ rw e tt
          | inr e ↦ rw e (
              Returns-bind _ (Advanced r) (Reader.skip r' 1) _
                (skip_from r r' 1 h (Moved-Advanced m.0))
                (λ r'' _ m'. skip_from r r'' (to_size blen) h m'))
        ]
  skip_value_bounds objectid = skip-Advanced r 12 h
  skip_value_bounds bool = skip-Advanced r 1 h
  skip_value_bounds datetime = skip-Advanced r 8 h
  skip_value_bounds null = record {
    same_buf = refl;
    same_len = refl;
    onward = omega arith;
    in_bounds = h.at;
  }
  skip_value_bounds int32 = skip-Advanced r 4 h
  skip_value_bounds int64 = skip-Advanced r 8 h
  skip_value_bounds unsupported = tt
  skip_value_bounds invalid = tt
