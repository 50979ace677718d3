-- ===== src/Storage/Access.antt =====
-- Reads and writes through the mapping of a file that is open for writing.
use bsondb.Common.{
  ℕ, ◌+◌, ◌^◌, ◌≤◌, ◌<◌, ◌≡◌, List, true, le→leb, length, slice, to_le, from_le-to_le,
}
use bsondb.Common.Patch.{patch}
use bsondb.Bson.Result.{ok, store}
use bsondb.Bson.Reader.Bounds.{load-slice}
use bsondb.Mmap.{MmapFile, read_write}
use bsondb.Mmap.Exec.{peek, poke, read_u64}

-- The file with its bytes overwritten from `off` on.
abbrev pub patched : MmapFile → ℕ → List ℕ → MmapFile
patched file off bytes = record file { bytes = patch bytes off file.bytes }

module _ (file : MmapFile) (mapped : file.mapped ≡ true) where
  pub peek-slice :
      (off n : ℕ)
      → off + n ≤ length file.bytes
      → peek off n file ≡ (ok (slice file.bytes off n), file)
  unfolding peek
  peek-slice off n h = rw (mapped, load-slice file.bytes off n h)

  pub read_u64-field :
      (off v : ℕ)
      → off + 8 ≤ length file.bytes
      → slice file.bytes off 8 ≡ to_le 8 v
      → v < 2 ^ 64
      → read_u64 off file ≡ (ok v, file)
  unfolding read_u64
  read_u64-field off v h e hv = rw (peek-slice off 8 h, e, from_le-to_le 8 v hv)

  pub poke-patch :
      (off : ℕ) (bytes : List ℕ)
      → file.mode ≡ read_write
      → off + length bytes ≤ length file.bytes
      → poke off bytes file ≡ (ok tt, patched file off bytes)
  unfolding poke store
  poke-patch off bytes m h = rw (mapped, m, le→leb _ _ h)
