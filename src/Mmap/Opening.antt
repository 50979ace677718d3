-- ===== src/Mmap/Opening.antt =====
-- `bson_mmap_open` for writing, of a file that is to be `size` bytes at least.
use bsondb.Common.{
  ℕ, ◌-◌, ◌^◌, ◌≤◌, ◌<◌, ◌≡◌, refl, ◌⊎◌, inl, inr, List, true, false, Option, none, some, ltb,
  ltb→lt, ◌==◌, length, take, replicate, length-append, length-take, length-replicate, Bool-cases,
  arith,
}
use bsondb.Bson.Result.{ok}
use bsondb.Mmap.{MmapFile, read_write, Os, resized, map_current_fd, grow_initial, mmap_open}

pub Option-cases {ℓ} : {A : Type ℓ} → (o : Option A) → (o ≡ none) ⊎ ((a : A) × (o ≡ some a))
Option-cases none = inl refl
Option-cases (some a) = inr (a, refl)

-- A system that finds those bytes at the path and does all that it is asked.
pub record IsWilling (os : Os) (found : List ℕ) : Type 0 where
  pub finds : os.open_file read_write ≡ some found
  pub resizes : (bytes : List ℕ) (n : ℕ) → os.ftruncate bytes n ≡ some (resized bytes n)
  pub maps : (n : ℕ) → os.mmap n ≡ true
  pub allocates : os.malloc ≡ true

-- What is mapped when it succeeds.
pub record IsOpened (size : ℕ) (file : MmapFile) : Type 0 where
  pub mapped : file.mapped ≡ true
  pub writable : file.mode ≡ read_write
  pub large : size ≤ length file.bytes
  pub small : length file.bytes < 2 ^ 62

module _ (os : Os) (size : ℕ) (some_size : 0 < size) (bound : size < 2 ^ 62) where
  length-resized : (bytes : List ℕ) → length bytes < size → length (resized bytes size) ≡ size
  length-resized bytes less = omega (
    arith,
    less,
    length-append (take size bytes) (replicate (size - length bytes) 0),
    length-take size bytes,
    length-replicate {A = ℕ} (size - length bytes) 0,
  )

  not_empty : (n : ℕ) → size ≤ n → (n == 0) ≡ false
  not_empty n large = ground (arith, some_size, large)

  module _ (found : List ℕ) (willing : IsWilling os found) (small : length found < 2 ^ 62) where
    -- The file is `size` bytes long afterwards, or longer as it was.
    grown :
        (bytes : List ℕ) × (grow_initial os read_write size found ≡ some bytes)
        × (size ≤ length bytes)
        × (length bytes < 2 ^ 62)
    unfolding grow_initial
    grown = elim (Bool-cases (ltb (length found) size)) [
      | inl t ↦
          let there = length-resized found (ltb→lt (length found) size t) in
          (
            resized found size,
            rw (t, willing.resizes found size),
            omega (arith, there),
            omega (arith, there, bound),
          )
      | inr f ↦ (found, rw f, ground (arith, f), small)
    ]

    -- The file is mapped for writing with the size asked for.
    pub mmap_open-IsWilling :
        (file : MmapFile) × (mmap_open os read_write size ≡ ok file) × IsOpened size file
    unfolding mmap_open map_current_fd
    mmap_open-IsWilling =
        let (bytes, g, large, fits) = grown in
        (
          record { mode = read_write; bytes = bytes; mapped = true },
          rw (
            mmap_open,
            willing.finds,
            g,
            willing.allocates,
            not_empty (length bytes) large,
            willing.maps (length bytes),
          ),
          record { mapped = refl; writable = refl; large = large; small = fits },
        )

-- A file that is there and is not empty is mapped as it is.
pub mmap_open-found :
    (os : Os) (bytes : List ℕ)
    → IsWilling os bytes
    → 0 < length bytes
    → mmap_open os read_write 0 ≡ ok (record { mode = read_write; bytes = bytes; mapped = true })
unfolding mmap_open map_current_fd grow_initial
mmap_open-found os bytes willing some_bytes =
    let kept : ltb (length bytes) 0 ≡ false = ground arith in
    let not_empty : (length bytes == 0) ≡ false = ground (arith, some_bytes) in
    rw (mmap_open, willing.finds, kept, willing.allocates, not_empty, willing.maps (length bytes))
