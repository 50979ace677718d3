-- ===== src/Bson/Writer/Capacity.antt =====
-- The growth of the buffer, and what a write does.
use bsondb.Common.{
  ℕ, zero, suc, ◌+◌, ◌-◌, ◌*◌, ◌/◌, ◌%◌, ◌^◌, ◌≤◌, ◌<◌, ◌≡◌, refl, ◌∙◌, inl, inr, List, ◌++◌, Bool,
  false, arith, ◌==◌, if◌then◌else◌, length, length-append, Bool-cases, le→ltb, lt→ltb, le→leb,
  lt→leb, ◌⊎◌,
}
use native.Mathlib.Decide.{dec_le}
use native.Mathlib.Nat.{pow-succ'}
use bsondb.Bson.Result.{Result, ok, err, ◌>>=◌, out_of_memory, document_too_large}
use bsondb.Bson.Wire.{max_document_size, size_mod}
use bsondb.Bson.Writer.{Writer, len, grow, writer_reserve, put_bytes}

-- The written bytes fit the allocation and the size limit.
pub record IsWriter (w : Writer) : Type 0 where
  pub within : len w ≤ w.cap
  pub limited : len w ≤ max_document_size

-- What the growth loop ends with: room for what is needed, and less than twice as much unless the
-- allocation was larger before.
pub record Grown (size needed new_cap : ℕ) : Type 0 where
  pub room : needed ≤ new_cap
  pub tight : (new_cap ≤ size) ⊎ (new_cap < 2 * needed)

grow_done : (rounds size needed : ℕ) → needed ≤ size → grow (suc rounds) size needed ≡ ok size
unfolding grow
grow_done rounds size needed h = rw (le→ltb size needed h)

grow_more :
    (rounds size needed : ℕ)
    → size < needed
    → size * 2 < size_mod
    → grow (suc rounds) size needed ≡ grow rounds (size * 2) needed
unfolding grow
grow_more rounds size needed h hs =
    rw (lt→ltb size needed h, le→ltb ((size_mod - 1) / 2) size (omega arith))

grow_jump :
    (rounds size needed : ℕ)
    → size < needed
    → size_mod ≤ size * 2
    → grow (suc rounds) size needed ≡ ok needed
unfolding grow
grow_jump rounds size needed h hs =
    rw (lt→ltb size needed h, lt→ltb ((size_mod - 1) / 2) size (omega arith))

shift : (size rounds : ℕ) → size * 2 ^ suc rounds ≡ size * 2 * 2 ^ rounds
shift size rounds = rw (pow-succ' 2 rounds) (omega arith)

abbrev GrowsTo : ℕ → ℕ → ℕ → Type 0
GrowsTo rounds size needed = (c : ℕ) × (grow rounds size needed ≡ ok c) × Grown size needed c

-- Enough rounds: the capacity doubles in each.
grow_lem :
    (rounds size needed : ℕ)
    → 0 < size
    → needed < size * 2 ^ rounds
    → GrowsTo (suc rounds) size needed
grow_lem zero size needed hc h = (
  size,
  grow_done zero size needed (omega arith),
  record { room = omega arith; tight = inl (omega arith) },
)
grow_lem (suc rounds) size needed hc h = elim (dec_le needed size) [
  | yes p ↦
      (size, grow_done (suc rounds) size needed p, record { room = p; tight = inl (omega arith) })
  | no p ↦ elim (dec_le size_mod (size * 2)) [
    | yes q ↦ (
      needed,
      grow_jump (suc rounds) size needed (omega arith) q,
      record { room = omega arith; tight = inr (omega arith) },
    )
    | no q ↦
        let (c, e, g) =
          grow_lem rounds (size * 2) needed (omega arith) (omega (arith, shift size rounds)) in
        (
          c,
          grow_more (suc rounds) size needed (omega arith) (omega arith) ∙ e,
          record { room = g.room; tight = ground (arith, g.tight) },
        )
  ]
]

-- A request for `n` more bytes: the three outcomes and when each happens.
data Reserved (can_alloc : ℕ → Bool) (w : Writer) (n : ℕ) (r : Result Writer) : Type 0 where
  too_large : max_document_size < len w + n → r ≡ err document_too_large → Reserved can_alloc w n r
  given :
      (c : ℕ)
      → len w + n ≤ c
      → len w + n ≤ max_document_size
      → (c ≡ w.cap) ⊎ (c ≤ 256) ⊎ (c < 2 * (len w + n))
      → r ≡ ok (record w { cap = c })
      → Reserved can_alloc w n r
  refused :
      (c : ℕ)
      → w.cap < len w + n
      → len w + n ≤ c
      → len w + n ≤ max_document_size
      → can_alloc c ≡ false
      → r ≡ err out_of_memory
      → Reserved can_alloc w n r

module _ (can_alloc : ℕ → Bool) (w : Writer) (h : IsWriter w) (n : ℕ) (hn : n < 2 ^ 63) where
  abbrev first_size : ℕ
  first_size = if w.cap == 0 then 256 else w.cap

  no_wrap : (len w + n) % size_mod ≡ len w + n
  no_wrap = omega (arith, h.limited)

  first_size_pos : 0 < first_size
  first_size_pos = ground arith

  enough_rounds : len w + n ≤ max_document_size → len w + n < first_size * 2 ^ 63
  enough_rounds k = omega (arith, first_size_pos)

  reserve_grows :
      (c : ℕ)
      → w.cap < len w + n
      → len w + n ≤ max_document_size
      → grow 64 first_size (len w + n) ≡ ok c
      → writer_reserve can_alloc w n
        ≡ (if can_alloc c then ok (record w { cap = c }) else err out_of_memory)
  unfolding writer_reserve
  reserve_grows c q p e = rw (
    no_wrap,
    le→ltb (len w + n) (len w) (omega arith),
    le→ltb max_document_size (len w + n) p,
    lt→leb w.cap (len w + n) q,
    e,
  )

  new_size :
      (c : ℕ)
      → ¬ (len w + n ≤ w.cap)
      → Grown first_size (len w + n) c
      → (c ≡ w.cap) ⊎ (c ≤ 256) ⊎ (c < 2 * (len w + n))
  new_size c q g = ground (arith, g.room, g.tight)

  writer_reserve_cases : Reserved can_alloc w n (writer_reserve can_alloc w n)
  unfolding writer_reserve
  writer_reserve_cases = elim (dec_le (len w + n) max_document_size) [
    | no p ↦ too_large (omega arith) (
        rw (
          no_wrap,
          le→ltb (len w + n) (len w) (omega arith),
          lt→ltb max_document_size (len w + n) (omega arith),
        ))
    | yes p ↦ elim (dec_le (len w + n) w.cap) [
      | yes q ↦ given w.cap q p (inl refl) (
          rw (
            no_wrap,
            le→ltb (len w + n) (len w) (omega arith),
            le→ltb max_document_size (len w + n) p,
            le→leb (len w + n) w.cap q,
          ))
      | no q ↦
          let (c, e, g) = grow_lem 63 first_size (len w + n) first_size_pos (enough_rounds p) in
          elim (Bool-cases (can_alloc c)) [
            | inl a ↦ given c g.room p (new_size c q g) (reserve_grows c (omega arith) p e ∙ rw a)
            | inr a ↦ refused c (omega arith) g.room p a (reserve_grows c (omega arith) p e ∙ rw a)
          ]
    ]
  ]

-- A write of some bytes, with the three outcomes and when each happens.
pub data Put (can_alloc : ℕ → Bool) (w : Writer) (bytes : List ℕ) (r : Result Writer) : Type 0 where
  too_large :
      max_document_size < len w + length bytes
      → r ≡ err document_too_large
      → Put can_alloc w bytes r
  written :
      (w' : Writer)
      → w'.buf ≡ w.buf ++ bytes
      → IsWriter w'
      → (w'.cap ≡ w.cap) ⊎ (w'.cap ≤ 256) ⊎ (w'.cap < 2 * len w')
      → r ≡ ok w'
      → Put can_alloc w bytes r
  refused :
      (c : ℕ)
      → w.cap < len w + length bytes
      → len w + length bytes ≤ c
      → len w + length bytes ≤ max_document_size
      → can_alloc c ≡ false
      → r ≡ err out_of_memory
      → Put can_alloc w bytes r

module _ (can_alloc : ℕ → Bool) (w : Writer) (h : IsWriter w) (bytes : List ℕ)
    (hn : length bytes < 2 ^ 63) where
  -- From a well-formed writer and for less than 2 ^ 63 bytes: a write that would pass 16 MiB fails with
  -- DOCUMENT_TOO_LARGE, whatever the allocator does; any other appends its bytes and keeps the writer well
  -- formed, unless the allocator refuses a larger buffer that is needed, which is OUT_OF_MEMORY. The capacity afterwards is the old one, 256 at
  -- most, or less than twice the new length.
  pub put_bytes_cases : Put can_alloc w bytes (put_bytes can_alloc w bytes)
  unfolding put_bytes
  put_bytes_cases =
      cases (writer_reserve can_alloc w (length bytes))
        (writer_reserve_cases can_alloc w h (length bytes) hn)
    where
      append : Writer → Result Writer
      append w' = ok (record w' { buf = w'.buf ++ bytes })

      cases :
          (r : Result Writer)
          → Reserved can_alloc w (length bytes) r
          → Put can_alloc w bytes (r >>= append)
      cases r (too_large p e) = too_large p (rw e)
      cases r (refused c p q limit a e) = refused c p q limit a (rw e)
      cases r (given c room p new e) =
          written (record { buf = w.buf ++ bytes; cap = c }) refl
            (record {
              within = rw (length-append w.buf bytes) room;
              limited = rw (length-append w.buf bytes) p;
            })
            (rw (length-append w.buf bytes) new) (rw e)
