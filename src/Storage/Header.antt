-- ===== src/Storage/Header.antt =====
-- `bson_storage_open_header`, `bson_storage_mark_clean` and `bson_storage_recover`.
use bsondb.Common.{
  ℕ, suc, List, Bool, true, false, ltb, ◌==◌, ◌&&◌, if◌then◌else◌, length, replicate,
}
use bsondb.Bson.Result.{Result, ok, invalid_file_header}
use bsondb.Mmap.{MmapFile, Mode, is_read_write, Os, mmap_size, mmap_resize, mmap_flush}
use bsondb.Mmap.Exec.{
  Exec, pure, raise, ◌>>=◌, ◌>>◌, peek, poke, read_u16, read_u64, write_u16, write_u32, write_u64,
}
use bsondb.Storage.Format.{
  storage_magic, storage_version, storage_header_len, initial_capacity, is_dirty, set_dirty,
  clear_dirty,
}
use bsondb.Storage.Scan.{recover_loop}

-- `bson_storage_data_end`, `bson_storage_live_count`, `bson_storage_total_count`
unfoldable pub storage_data_end : Exec ℕ
storage_data_end file = if file.mapped then read_u64 16 file else pure storage_header_len file

unfoldable pub storage_live_count : Exec ℕ
storage_live_count file = if file.mapped then read_u64 24 file else pure 0 file

unfoldable pub storage_total_count : Exec ℕ
storage_total_count file = if file.mapped then read_u64 32 file else pure 0 file

-- The bytes that the scan reads: all that is mapped.
abbrev pub visible : MmapFile → List ℕ
visible file = if file.mapped then file.bytes else List.[]

abbrev pub lift : {A : Type 0} → Result A → Exec A
lift r file = (r, file)

-- `bson_storage_recover`: the scan, then the three counters.
unfoldable pub storage_recover : Exec (Unit {0})
storage_recover file =
    (do
      counts ← lift (
          recover_loop (suc (length (visible file))) (visible file)
            (record { end = storage_header_len; live = 0; total = 0 }))
      write_u64 16 counts.end
      write_u64 24 counts.live
      write_u64 32 counts.total)
      file

-- The magic bytes agree, or `memcmp` finds a difference.
unfoldable pub same_bytes : List ℕ → List ℕ → Bool
same_bytes List.[] List.[] = true
same_bytes (List.◌∷◌ a xs) (List.◌∷◌ b ys) = (a == b) && same_bytes xs ys
same_bytes _ _ = false

-- `memset(base, 0, bson_mmap_size(file))`
unfoldable pub fill_zero : Exec (Unit {0})
fill_zero file = poke 0 (replicate (mmap_size file) 0) file

module _ (os : Os) where
  abbrev pub resize : ℕ → Exec (Unit {0})
  resize n file = mmap_resize os file n

  abbrev pub flush : Exec (Unit {0})
  flush file = (mmap_flush os file, file)

  -- A fresh file: one page of zeros and the header.
  unfoldable pub create_header : Mode → Exec (Unit {0})
  create_header mode =
      if is_read_write mode
      then (do
        resize initial_capacity
        fill_zero
        poke 0 storage_magic
        write_u16 4 storage_version
        write_u16 6 0
        write_u32 8 storage_header_len
        write_u64 16 storage_header_len
        write_u64 24 0
        write_u64 32 0
        write_u32 40 0)
      else raise invalid_file_header

  -- An existing file: magic, version, and the recovery of a file that was not closed.
  unfoldable pub check_header : Mode → Exec (Unit {0})
  check_header mode = do
    magic ← peek 0 4
    if same_bytes magic storage_magic
        then (do
          version ← read_u16 4
          if version == storage_version
              then (do
                flags ← read_u16 6
                if is_dirty flags && is_read_write mode then storage_recover else pure tt)
              else raise invalid_file_header)
        else raise invalid_file_header

  -- DIRTY stays set while the file is open for writing.
  unfoldable pub mark_dirty : Mode → Exec (Unit {0})
  mark_dirty mode =
      if is_read_write mode
      then (do flags ← read_u16 6; write_u16 6 (set_dirty flags); flush)
      else pure tt

  -- `bson_storage_open_header`
  unfoldable pub storage_open_header : Mode → Exec (Unit {0})
  storage_open_header mode file =
      (do
        (if mmap_size file == 0
            then create_header mode
            else if ltb (mmap_size file) storage_header_len
            then raise invalid_file_header
            else check_header mode)
        mark_dirty mode)
        file

  -- `bson_storage_mark_clean`
  unfoldable pub storage_mark_clean : Exec (Unit {0})
  storage_mark_clean file =
      if file.mapped
      then (do flags ← read_u16 6; write_u16 6 (clear_dirty flags); flush) file
      else (ok tt, file)
