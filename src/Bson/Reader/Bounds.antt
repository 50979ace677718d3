-- ===== src/Bson/Reader/Bounds.antt =====
-- A reader whose length is at most that of its buffer never reads outside it.
use bsondb.Common.{
  drop, slice, ap, false, ℕ, zero, suc, ◌+◌, ◌-◌, ◌≤◌, ◌<◌, ◌^◌, ◌≡◌, refl, List, [], ◌∷◌, arith,
  length, inl, inr, Bool-cases, from_le, ltb, if◌then◌else◌, ◌∙◌, ◌==◌, leb, tests, leb→lt,
}
use bsondb.Common.Int.{pos_part}
use bsondb.Bson.Wire.{i32_of}
use bsondb.Bson.Result.{ok, byte_at, Returns}
use bsondb.Bson.Reader.{
  Reader, remaining, load, read_u8, read_i32, read_i64, read_double, read_bytes, scan_nul,
  read_cstring_bounded, skip,
}

-- The header's invariant "pos <= len always", for a length that the buffer has. No buffer of C has
-- 2 ^ 63 bytes.
pub record IsReader (r : Reader) : Type 0 where
  pub at : r.pos ≤ r.len
  pub within : r.len ≤ length r.buf
  pub fits : r.len < 2 ^ 63

-- The cursor has moved on by `n` in the same buffer.
pub record Moved (r r' : Reader) (n : ℕ) : Type 0 where
  pub same_buf : r'.buf ≡ r.buf
  pub same_len : r'.len ≡ r.len
  pub moved : r'.pos ≡ r.pos + n
  pub in_bounds : r'.pos ≤ r.len

pub remaining_lem : (r : Reader) → IsReader r → remaining r ≡ r.len - r.pos
unfolding remaining
remaining_lem r h = omega arith

pub byte_at_some : (buf : List ℕ) (i : ℕ) → i < length buf → (b : ℕ) × (byte_at buf i ≡ ok b)
byte_at_some [] i h = absurd (omega arith)
byte_at_some (b ∷ bs) zero h = (b, refl)
byte_at_some (b ∷ bs) (suc i) h = byte_at_some bs i (omega arith)

pub load_some :
    (buf : List ℕ) (i n : ℕ) → i + n ≤ length buf → (bs : List ℕ) × (load buf i n ≡ ok bs)
unfolding load
load_some buf i zero h = ([], refl)
load_some buf i (suc n) h =
    let (b, e) = byte_at_some buf i (omega arith) in
    let (bs, e') = load_some buf (i + 1) n (omega arith) in (b ∷ bs, ground (arith, e, e'))

-- What is loaded is the slice of the buffer.
drop-cons :
    (buf : List ℕ) (i : ℕ)
    → i < length buf
    → (b : ℕ) × (byte_at buf i ≡ ok b) × (drop i buf ≡ b ∷ drop (i + 1) buf)
drop-cons [] i h = absurd (omega arith)
drop-cons (b ∷ bs) zero h = (b, refl, refl)
drop-cons (b ∷ bs) (suc i) h =
    let (c, e, e') = drop-cons bs i (omega arith) in
    (c, e, e' ∙ ap (λ (k : ℕ). c ∷ drop k (b ∷ bs)) (next_index i))
  where
    next_index : (i : ℕ) → suc (i + 1) ≡ suc i + 1
    next_index i = omega arith

pub load-slice : (buf : List ℕ) (i n : ℕ) → i + n ≤ length buf → load buf i n ≡ ok (slice buf i n)
unfolding load
load-slice buf i zero h = refl
load-slice buf i (suc n) h =
    let (b, e, e') = drop-cons buf i (omega arith) in
    rw (e, load-slice buf (i + 1) n (omega arith), e')

-- `scan_nul` stops at its bound or at a NUL before it.
pub scan_nul_some :
    (buf : List ℕ) (i n : ℕ)
    → i + n ≤ length buf
    → (j : ℕ) × (scan_nul buf i n ≡ ok j) × (i ≤ j) × (j ≤ i + n)
unfolding scan_nul
scan_nul_some buf i zero h = (i, refl, omega arith, omega arith)
scan_nul_some buf i (suc n) h =
    let (b, e) = byte_at_some buf i (omega arith) in
    let (j, e', lo, hi) = scan_nul_some buf (i + 1) n (omega arith) in
    elim (Bool-cases (b == 0)) [
      | inl z ↦ (i, ground (arith, e), omega arith, omega arith)
      | inr z ↦ (j, ground (arith, e, e'), omega arith, omega arith)
    ]

Moved-advance : (r : Reader) (n : ℕ) → r.pos + n ≤ r.len → Moved r (record r { pos = r.pos + n }) n
Moved-advance r n h = record { same_buf = refl; same_len = refl; moved = refl; in_bounds = h }

-- A cursor that moved inside its bounds is one again, and moves add up.
pub Moved-IsReader : {r r' : Reader} {n : ℕ} → IsReader r → Moved r r' n → IsReader r'
Moved-IsReader {r} {r'} h m = record {
  at = omega (arith, m.in_bounds, m.same_len);
  within = rw (m.same_len, m.same_buf) h.within;
  fits = rw m.same_len h.fits;
}

pub Moved-trans :
    {r r' r'' : Reader} {m n : ℕ} → Moved r r' m → Moved r' r'' n → Moved r r'' (m + n)
Moved-trans h k = record {
  same_buf = k.same_buf ∙ h.same_buf;
  same_len = k.same_len ∙ h.same_len;
  moved = omega (arith, k.moved, h.moved);
  in_bounds = omega (arith, k.in_bounds, h.same_len);
}

i32_of-lt : (w : ℕ) → pos_part (i32_of w) < 2 ^ 31
i32_of-lt w = ground arith

module _ (r : Reader) (h : IsReader r) where
  room : (n : ℕ) → ltb (remaining r) n ≡ false → r.pos + n ≤ r.len
  room n e = omega (tests, h, remaining_lem r h)

  room_buf : (n : ℕ) → ltb (remaining r) n ≡ false → r.pos + n ≤ length r.buf
  room_buf n e = omega (arith, h, room n e)

  pub read_u8_bounds : Returns (λ p. Moved r p.1 1) (read_u8 r)
  unfolding read_u8
  read_u8_bounds = elim (Bool-cases (ltb (remaining r) 1)) [
    | inl e ↦ rw e tt
    | inr e ↦
        let (b, eb) = byte_at_some r.buf r.pos (omega (arith, room_buf 1 e)) in
        rw (e, eb) (Moved-advance r 1 (room 1 e))
  ]

  pub read_i32_bounds : Returns (λ p. Moved r p.1 4 × (pos_part p.0 < 2 ^ 31)) (read_i32 r)
  unfolding read_i32
  read_i32_bounds = elim (Bool-cases (ltb (remaining r) 4)) [
    | inl e ↦ rw e tt
    | inr e ↦
        let (bs, eb) = load_some r.buf r.pos 4 (room_buf 4 e) in
        rw (e, eb) (Moved-advance r 4 (room 4 e), i32_of-lt (from_le bs))
  ]

  pub read_i64_bounds : Returns (λ p. Moved r p.1 8) (read_i64 r)
  unfolding read_i64
  read_i64_bounds = elim (Bool-cases (ltb (remaining r) 8)) [
    | inl e ↦ rw e tt
    | inr e ↦
        let (bs, eb) = load_some r.buf r.pos 8 (room_buf 8 e) in
        rw (e, eb) (Moved-advance r 8 (room 8 e))
  ]

  pub read_double_bounds : Returns (λ p. Moved r p.1 8) (read_double r)
  unfolding read_double
  read_double_bounds = elim (Bool-cases (ltb (remaining r) 8)) [
    | inl e ↦ rw e tt
    | inr e ↦
        let (bs, eb) = load_some r.buf r.pos 8 (room_buf 8 e) in
        rw (e, eb) (Moved-advance r 8 (room 8 e))
  ]

  pub read_bytes_bounds : (n : ℕ) → Returns (λ p. (p.0 ≡ r.pos) × Moved r p.1 n) (read_bytes r n)
  unfolding read_bytes
  read_bytes_bounds n = elim (Bool-cases (ltb (remaining r) n)) [
    | inl e ↦ rw e tt
    | inr e ↦ rw e (refl, Moved-advance r n (room n e))
  ]

  pub skip_bounds : (n : ℕ) → Returns (λ r'. Moved r r' n) (skip r n)
  unfolding skip
  skip_bounds n = elim (Bool-cases (ltb (remaining r) n)) [
    | inl e ↦ rw e tt
    | inr e ↦ rw e (Moved-advance r n (room n e))
  ]

-- What `read_cstring_bounded` hands out: the string lies before the bound with its NUL, and the
-- cursor stands behind the NUL.
pub record IsCstring (r : Reader) (bound : ℕ) (p : ℕ × ℕ × Reader) : Type 0 where
  pub off : p.0 ≡ r.pos
  pub moved : Moved r p.2 (p.1 + 1)
  pub before : p.2.pos ≤ bound

IsCstring-at :
    (r : Reader) (bound m i : ℕ)
    → m ≤ bound
    → m ≤ r.len
    → r.pos ≤ i
    → i < m
    → IsCstring r bound (r.pos, i - r.pos, record r { pos = i + 1 })
IsCstring-at r bound m i hb hl lo hi = record {
  off = refl;
  moved = record { same_buf = refl; same_len = refl; moved = omega arith; in_bounds = omega arith };
  before = omega arith;
}

module _ (r : Reader) (h : IsReader r) (bound : ℕ) where
  abbrev min_bound : ℕ
  min_bound = if ltb r.len bound then r.len else bound

  min_bound_le : (min_bound ≤ bound) × (min_bound ≤ r.len)
  min_bound_le = ground arith

  pub read_cstring_bounded_bounds :
      Returns (λ p. IsCstring r bound p) (read_cstring_bounded r bound)
  unfolding read_cstring_bounded
  read_cstring_bounded_bounds = elim (Bool-cases (ltb min_bound r.pos)) [
    | inl e ↦ rw e tt
    | inr e ↦
        let (i, ei, lo, hi) =
          scan_nul_some r.buf r.pos (min_bound - r.pos)
            (omega (tests, h, min_bound_le.0, min_bound_le.1)) in
        rw (e, ei)
          (elim (Bool-cases (leb min_bound i)) [
            | inl f ↦ rw f tt
            | inr f ↦
                rw f
                  (IsCstring-at r bound min_bound i min_bound_le.0 min_bound_le.1 lo (leb→lt _ _ f))
          ])
  ]
