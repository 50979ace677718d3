-- ===== src/Storage/Records.antt =====
-- `bson_storage_append`, `bson_storage_tombstone` and `bson_storage_read`.
use bsondb.Common.{
  ℕ, zero, suc, ◌+◌, ◌-◌, ◌*◌, ◌/◌, ◌%◌, List, [], ◌∷◌, ltb, leb, ◌==◌, if◌then◌else◌, length, drop,
}
use bsondb.Common.Int.{ℤ, pos, ltb_ℤ, to_size}
use bsondb.Bson.Result.{Result, ok, err, fault, stuck, byte_at, record_not_found}
use bsondb.Bson.Wire.{doc_min_len, size_mod}
use bsondb.Bson.Reader
use bsondb.Bson.Reader.{Reader}
use bsondb.Mmap.{Os, mmap_size}
use bsondb.Mmap.Exec.{Exec, pure, raise, ◌>>=◌, ◌>>◌, poke, read_u64, write_u64}
use bsondb.Storage.Format.{record_live, record_tombstone, initial_capacity, page_size}
use bsondb.Storage.Header.{storage_data_end, resize, lift}

-- `while (new_cap < needed) new_cap *= 2`, in `size_t`. From 1 up, 64 rounds double past every needed
-- size that does not make `new_cap` wrap to 0; from 0 the C loop does not end.
unfoldable pub double_until : ℕ → ℕ → ℕ → Result ℕ
double_until zero new_cap needed = stuck
double_until (suc rounds) new_cap needed =
    let more = double_until rounds (new_cap * 2 % size_mod) needed in
    if ltb new_cap needed then more else ok new_cap

-- Up to the next page boundary.
abbrev pub page_round : ℕ → ℕ
page_round n = (n + page_size - 1) % size_mod / page_size * page_size

-- The record's status byte and the bounds of its document.
pub record Entry : Type 0 where
  pub status : ℕ
  pub doc_off : ℕ
  pub doc_len : ℕ

-- `bson_reader_init(&reader, base + doc_off, data_end - doc_off)` and the length that it reads.
unfoldable pub read_length : List ℕ → ℕ → ℕ → Result (ℤ × Reader)
read_length bytes doc_off data_end =
    Reader.read_i32 (Reader.init (drop doc_off bytes) ((data_end + size_mod - doc_off) % size_mod))

unfoldable pub entry_of : ℕ → ℕ → Result (ℤ × Reader) → Result Entry
entry_of status doc_off (ok (doc_len, _)) =
    if ltb_ℤ doc_len (pos doc_min_len)
    then err record_not_found
    else ok (record { status = status; doc_off = doc_off; doc_len = to_size doc_len })
entry_of status doc_off (err s) = err record_not_found
entry_of status doc_off fault = fault
entry_of status doc_off stuck = stuck

-- The rest of `bson_storage_read`, and what `base[off]` gives.
unfoldable pub read_entry : ℕ → ℕ → ℕ → Exec Entry
read_entry record_off data_end status file =
    (entry_of status (record_off + 1) (read_length file.bytes (record_off + 1) data_end), file)

unfoldable pub peek_u8 : ℕ → Exec ℕ
peek_u8 off file = (if file.mapped then byte_at file.bytes off else fault, file)

-- What `bson_storage_append` writes once the file is long enough.
unfoldable pub write_record : ℕ → List ℕ → Exec ℕ
write_record data_end doc = do
  poke data_end (record_live ∷ [])
  poke (data_end + 1) doc
  write_u64 16 ((data_end + 1 + length doc) % size_mod)
  live ← read_u64 24
  write_u64 24 ((live + 1) % size_mod)
  total ← read_u64 32
  write_u64 32 ((total + 1) % size_mod)
  pure data_end

module _ (os : Os) where
  -- The file grows to the next power-of-two multiple of its size, rounded to a page.
  unfoldable pub make_room : ℕ → Exec (Unit {0})
  make_room needed file =
      if ltb (mmap_size file) needed
      then (do
        new_cap ← lift (
            double_until 65 (if mmap_size file == 0 then initial_capacity else mmap_size file)
              needed)
        resize os (page_round new_cap))
          file
      else (ok tt, file)

  -- `bson_storage_append`; the output is the offset of the record.
  unfoldable pub storage_append : List ℕ → Exec ℕ
  storage_append doc = do
    data_end ← storage_data_end
    make_room ((data_end + 1 + length doc) % size_mod)
    write_record data_end doc

-- `bson_storage_tombstone`
unfoldable pub storage_tombstone : ℕ → Exec (Unit {0})
storage_tombstone record_off = do
  data_end ← storage_data_end
  if leb data_end record_off then raise record_not_found else (do
    status ← peek_u8 record_off
    if status == record_tombstone
        then pure tt
        else if status == record_live
        then (do
          poke record_off (record_tombstone ∷ [])
          live ← read_u64 24
          if ltb 0 live then write_u64 24 (live - 1) else pure tt)
        else raise record_not_found)

-- `bson_storage_read`
unfoldable pub storage_read : ℕ → Exec Entry
storage_read record_off = do
  data_end ← storage_data_end
  if leb data_end record_off
      then raise record_not_found
      else (do status ← peek_u8 record_off; read_entry record_off data_end status)
