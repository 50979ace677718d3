-- ===== src/Mmap.antt =====
-- The POSIX half of src/c_engine/platform_mmap.c: a file that is mapped whole into memory.
pub mod Exec
pub mod Writes
pub mod Opening
use bsondb.Common.{
  ℕ, ◌-◌, ◌≡◌, List, [], ◌++◌, Bool, true, false, Option, none, some, ltb, ◌==◌, ◌&&◌,
  if◌then◌else◌, length, take, replicate,
}
use bsondb.Bson.Result.{Result, ok, err, io, read_only_violation, out_of_memory}

-- `bson_mmap_mode_t`
pub data Mode : Type 0 where
  read_only read_write : Mode

abbrev pub is_read_write : Mode → Bool
is_read_write read_only = false
is_read_write read_write = true

-- A shared mapping shows the file's own bytes, and it always covers the whole file: `bytes` is both.
-- `mapped` says that `base` is not NULL.
pub record MmapFile : Type 0 where
  pub mode : Mode
  pub bytes : List ℕ
  pub mapped : Bool

-- `ftruncate` cuts the file, or fills it up with zeros.
abbrev pub resized : List ℕ → ℕ → List ℕ
resized bytes n = take n bytes ++ replicate (n - length bytes) 0

-- The system calls. Each may fail; the law is what POSIX says of an `ftruncate` that succeeds.
pub record Os : Type 0 where
  -- `open` and `fstat`: the bytes of the file at the path, which O_CREAT makes in mode `read_write`.
  pub open_file : Mode → Option (List ℕ)
  pub ftruncate : List ℕ → ℕ → Option (List ℕ)
  pub ftruncate-resized :
      (bytes : List ℕ) (n : ℕ) (bytes' : List ℕ)
      → ftruncate bytes n ≡ some bytes'
      → bytes' ≡ resized bytes n
  -- `mmap` of that many bytes, `msync`, and the allocation of a handle.
  pub mmap : ℕ → Bool
  pub msync : List ℕ → Bool
  pub malloc : Bool

-- `bson_mmap_size`
unfoldable pub mmap_size : MmapFile → ℕ
mmap_size file = if file.mapped then length file.bytes else 0

-- What a call leaves behind: a failed call may have changed the file.
abbrev pub Outcome : Type 0 → Type 0
Outcome A = Result A × MmapFile

module _ (os : Os) where
  -- `map_current_fd`: the caller has unmapped the file. A size of 0 is left unmapped.
  unfoldable pub map_current_fd : MmapFile → ℕ → Outcome (Unit {0})
  map_current_fd file size =
      if size == 0
      then (ok tt, record file { mapped = false })
      else if os.mmap size
      then (ok tt, record file { mapped = true })
      else (err io, file)

  -- The new size after `ftruncate` to `initial_size`, where that is larger.
  unfoldable pub grow_initial : Mode → ℕ → List ℕ → Option (List ℕ)
  grow_initial mode initial_size bytes =
      if is_read_write mode && ltb (length bytes) initial_size
      then os.ftruncate bytes initial_size
      else some bytes

  abbrev opened : Outcome (Unit {0}) → Result MmapFile
  opened (ok _, file) = ok file
  opened (err s, file) = err s
  opened (Result.fault, file) = Result.fault
  opened (Result.stuck, file) = Result.stuck

  -- `bson_mmap_open`
  unfoldable pub mmap_open : Mode → ℕ → Result MmapFile
  mmap_open mode initial_size = elim (os.open_file mode) [
    | none ↦ err io
    | some found ↦ elim (grow_initial mode initial_size found) [
      | none ↦ err io
      | some bytes ↦
          if os.malloc
          then opened (
              map_current_fd (record { mode = mode; bytes = bytes; mapped = false }) (length bytes))
          else err out_of_memory
    ]
  ]

  -- `bson_mmap_resize`: the old mapping is gone before the new one is made.
  unfoldable pub mmap_resize : MmapFile → ℕ → Outcome (Unit {0})
  mmap_resize file new_size =
      if is_read_write file.mode
      then (if new_size == mmap_size file
          then (ok tt, file)
          else elim (os.ftruncate file.bytes new_size) [
            | none ↦ (err io, file)
            | some bytes ↦ map_current_fd (record file { bytes = bytes; mapped = false }) new_size
          ])
      else (err read_only_violation, file)

  -- `bson_mmap_flush`
  unfoldable pub mmap_flush : MmapFile → Result (Unit {0})
  mmap_flush file =
      if is_read_write file.mode
      then (if file.mapped then (if os.msync file.bytes then ok tt else err io) else ok tt)
      else err read_only_violation
