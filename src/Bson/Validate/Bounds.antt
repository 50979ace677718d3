-- ===== src/Bson/Validate/Bounds.antt =====
-- The validator never reads outside its buffer, and always comes back.
use bsondb.Common.{
  ℕ, zero, suc, ◌+◌, ◌-◌, ◌^◌, ◌≤◌, ◌<◌, ◌≡◌, ◌≢◌, ◌∙◌, inl, inr, List, true, false, Option, none,
  some, arith, ltb, ◌==◌, length, Bool-cases,
}
use bsondb.Bson.Result.{
  Result, ok, err, max_depth_exceeded, fault, stuck, ◌>>=◌, Returns, Returns-bind, Returns-weaken,
  Returns-ne,
}
use bsondb.Bson.Wire.{doc_min_len, max_depth}
use bsondb.Bson.Reader.Bounds.{IsReader}
use bsondb.Bson.Iter.{Iter, init_nested, next}
use bsondb.Bson.Iter.Bounds.{
  IsIter, Stepped, SteppedTo, next_bounds, Opened, init_nested_bounds, start,
}
use bsondb.Bson.Validate.{is_nested, validate_recursive, validate_loop, validate_document}

abbrev Ends : ℕ → ℕ → Type 0
Ends bound doc_end = doc_end ≤ bound

-- One call, and one round of its loop, with the calls that they make shut.
recursive_step :
    (P : ℕ → Type 0) (fuel : ℕ) (buf : List ℕ) (offset bound depth : ℕ)
    → Returns P (init_nested buf offset bound >>= λ it. validate_loop fuel buf it depth)
    → Returns P (validate_recursive (suc fuel) buf offset bound depth)
unfolding validate_recursive
recursive_step P fuel buf offset bound depth h =
    elim (ltb max_depth depth)
      as (λ b. Returns P (elim b [
        | true ↦ err max_depth_exceeded
        | false ↦ init_nested buf offset bound >>= λ it. validate_loop fuel buf it depth
      ])) [ true ↦ tt | false ↦ h ]

module _ (P : ℕ → Type 0) (fuel : ℕ) (buf : List ℕ) (it : Iter) (depth : ℕ) where
  after : Option Iter → Result ℕ
  after none = ok (it.doc_end + 1)
  after (some it') = elim (is_nested it'.type) [
    | true ↦ validate_recursive fuel buf it'.value_off it'.doc_end (depth + 1) >>= λ child_end.
        validate_loop fuel buf it' depth
    | false ↦ validate_loop fuel buf it' depth
  ]

  -- The obligations of a round: the clean end, a nested document, and the rest of the loop.
  record Round : Type 0 where
    at_end : P (it.doc_end + 1)
    nested :
        (it' : Iter)
        → Stepped it it'
        → Returns
            (Ends it'.doc_end)
            (validate_recursive fuel buf it'.value_off it'.doc_end (depth + 1))
    rest : (it' : Iter) → Stepped it it' → Returns P (validate_loop fuel buf it' depth)

  after_bounds : Round → (n : Option Iter) → SteppedTo it n → Returns P (after n)
  unfolding after
  after_bounds k none s = k.at_end
  after_bounds k (some it') s =
      elim (is_nested it'.type)
        as (λ b. Returns P (elim b [
          | true ↦
              validate_recursive fuel buf it'.value_off it'.doc_end (depth + 1) >>= λ child_end.
              validate_loop fuel buf it' depth
          | false ↦ validate_loop fuel buf it' depth
        ])) [
          | true ↦ Returns-bind (Ends it'.doc_end) P _ _ (k.nested it' s) (λ _ _ _. k.rest it' s)
          | false ↦ k.rest it' s
        ]

  loop_step : IsIter it → Round → Returns P (validate_loop (suc fuel) buf it depth)
  unfolding validate_loop after
  loop_step h k =
      Returns-bind (SteppedTo it) P (next it) after (next_bounds it h) (λ n _ s. after_bounds k n s)

-- `start` of a nested document.
start_nested :
    (it it' : Iter) → Stepped it it' → IsReader (start it.reader.buf it'.value_off it'.doc_end)
start_nested it it' s = record {
  at = omega (arith, s.value, s.valid.before);
  within = rw (← s.same_buf) (omega (arith, s.valid.inside, s.valid.reader.within));
  fits = omega (arith, s.valid.inside, s.valid.reader.fits);
}

mutual
  recursive_bounds :
      (fuel : ℕ) (buf : List ℕ) (offset bound depth : ℕ)
      → IsReader (start buf offset bound)
      → bound - offset < fuel
      → Returns (Ends bound) (validate_recursive fuel buf offset bound depth)
  recursive_bounds zero buf offset bound depth h hf = absurd (omega arith)
  recursive_bounds (suc fuel) buf offset bound depth h hf =
      recursive_step (Ends bound) fuel buf offset bound depth (
        Returns-bind (Opened buf offset bound) (Ends bound) (init_nested buf offset bound) _
          (init_nested_bounds buf offset bound h)
          λ it _ o.
            Returns-weaken (λ d. d ≤ it.doc_end + 1) (Ends bound) (validate_loop fuel buf it depth)
              (loop_bounds fuel buf it depth o.valid o.same_buf
                (omega (arith, o.onward, o.nonempty, o.valid.inside, o.same_len)))
              (λ d hd. omega (arith, o.valid.inside, o.same_len)))

  loop_bounds :
      (fuel : ℕ) (buf : List ℕ) (it : Iter) (depth : ℕ)
      → IsIter it
      → it.reader.buf ≡ buf
      → it.doc_end - it.reader.pos < fuel
      → Returns (λ d. d ≤ it.doc_end + 1) (validate_loop fuel buf it depth)
  loop_bounds zero buf it depth h hb hf = absurd (omega arith)
  loop_bounds (suc fuel) buf it depth h hb hf =
      loop_step (λ d. d ≤ it.doc_end + 1) fuel buf it depth h
        (record {
          at_end = omega arith;
          nested = λ it' s.
              recursive_bounds fuel buf it'.value_off it'.doc_end (depth + 1)
                (rw (← hb) (start_nested it it' s))
                (omega (arith, s.onward, s.value, s.valid.before, s.same_end));
          rest = λ it' s.
              Returns-weaken (λ d. d ≤ it'.doc_end + 1) _ (validate_loop fuel buf it' depth)
                (loop_bounds fuel buf it' depth s.valid (s.same_buf ∙ hb)
                  (omega (arith, s.onward, s.value, s.valid.before, s.same_end)))
                (λ d hd. omega (arith, s.same_end));
        })

pub validate_document_bounds :
    (buf : List ℕ) (len : ℕ)
    → len ≤ length buf
    → len < 2 ^ 63
    → Returns (λ _. Unit) (validate_document buf len)
unfolding validate_document
validate_document_bounds buf len h hl = elim (Bool-cases (ltb len doc_min_len)) [
  | inl e ↦ rw e tt
  | inr e ↦ rw e (
      Returns-bind (Ends len) (λ _. Unit) (validate_recursive (suc len) buf 0 len 0) _
        (recursive_bounds (suc len) buf 0 len 0 (record { at = omega arith; within = h; fits = hl })
          (omega arith))
        (λ doc_end _ _. elim (Bool-cases (doc_end == len)) [
          | inl e' ↦ rw e' tt
          | inr e' ↦ rw e' tt
        ]))
]

-- On any bytes, read as a document of `len` bytes that the buffer has, the validator reads inside
-- the buffer only and comes back with a status: it neither faults nor runs out of fuel.
pub validate_document_safe :
    (buf : List ℕ) (len : ℕ)
    → len ≤ length buf
    → len < 2 ^ 63
    → (validate_document buf len ≢ fault) × (validate_document buf len ≢ stuck)
validate_document_safe buf len h hl = Returns-ne _ _ (validate_document_bounds buf len h hl)
