-- ===== src/Storage/Handle.antt =====
-- `CollectionHandle` in src/python_bindings/_storage_core.c: what Python calls on a data file.
pub mod Deletions
pub mod Closing
pub mod Cursor
pub mod Enumeration
pub mod Reading
pub mod Sessions
pub mod Documents
use bsondb.Common.{
  ℕ, zero, suc, ◌+◌, ◌-◌, ◌%◌, List, Bool, true, false, Option, none, some, ltb, ◌==◌,
  if◌then◌else◌,
}
use bsondb.Common.Int.{ℤ, pos, negsuc}
use bsondb.Bson.Result.{
  Result, Status, ok, err, fault, stuck, out_of_memory, io, invalid_file_header, record_not_found,
  read_only_violation, duplicate_key, index_unsupported,
}
use bsondb.Bson.Wire.{size_mod}
use bsondb.Mmap.{MmapFile, read_write, Os, mmap_open, mmap_flush}
use bsondb.Mmap.Exec.{Exec, pure, ◌>>=◌, ◌>>◌, peek}
use bsondb.Storage.Format.{record_live}
use bsondb.Storage.Header.{
  storage_data_end, storage_live_count, storage_open_header, storage_mark_clean, visible, lift,
  flush,
}
use bsondb.Storage.Records
use bsondb.Storage.Records.{Entry, storage_append, storage_tombstone, storage_read}
use bsondb.Storage.Scanner
use bsondb.Storage.Scanner.{Scanner, scanner_open, scanner_next}

-- The exceptions of `storage_error_to_python`.
pub data PyError : Type 0 where
  memory_error os_error invalid_bson lookup_error value_error duplicate_key_error : PyError
  runtime_error : PyError

unfoldable pub storage_error_to_python : Status → PyError
storage_error_to_python out_of_memory = memory_error
storage_error_to_python io = os_error
storage_error_to_python invalid_file_header = invalid_bson
storage_error_to_python record_not_found = lookup_error
storage_error_to_python read_only_violation = value_error
storage_error_to_python duplicate_key = duplicate_key_error
storage_error_to_python index_unsupported = value_error
storage_error_to_python _ = runtime_error

-- What Python sees of a call: a value, an exception, or no return at all.
pub data Reply {ℓ} (A : Type ℓ) : Type ℓ where
  returned : A → Reply A
  raised : PyError → Reply A
  crashed : Reply A
  hung : Reply A

abbrev pub reply {ℓ} : {A : Type ℓ} → Result A → Reply A
reply (ok a) = returned a
reply (err s) = raised (storage_error_to_python s)
reply fault = crashed
reply stuck = hung

-- `self->file`, which is NULL once the handle is closed.
abbrev pub Handle : Type 0
Handle = Option MmapFile

abbrev pub Method : Type 0 → Type 0
Method A = Handle → Reply A × Handle

-- CHECK_OPEN, then the storage engine, then the translation of its status.
unfoldable pub with_open : {A : Type 0} → Exec A → Method A
with_open m none = (raised value_error, none)
with_open m (some file) = let (r, file') = m file in (reply r, some file')

-- A method with an offset argument, which may not be negative.
unfoldable pub with_offset : {A : Type 0} → ℤ → (ℕ → Exec A) → Method A
with_offset offset m none = (raised value_error, none)
with_offset (pos offset) m (some file) = with_open (m offset) (some file)
with_offset (negsuc n) m (some file) = (raised value_error, some file)

unfoldable pub close_after : Result (Unit {0}) × MmapFile → Reply (Unit {0}) × Handle
close_after (ok _, file) = (returned tt, none)
close_after (err s, file) = (raised (storage_error_to_python s), some file)
close_after (fault, file) = (crashed, some file)
close_after (stuck, file) = (hung, some file)

-- The next live record from `scanner` on: its offset.
abbrev pub next_offset : Option (Entry × Scanner) → Option ℕ
next_offset none = none
next_offset (some (e, _)) = some (e.doc_off - 1)

unfoldable pub scan_from : ℕ → ℕ → Exec (Option ℕ)
scan_from data_end start file =
    (do
      found ← lift (scanner_next (record (scanner_open (visible file) data_end) { pos = start }))
      pure (next_offset found))
      file

unfoldable pub scan_first : Exec (Option ℕ)
scan_first = do data_end ← storage_data_end; scan_from data_end 64

unfoldable pub scan_after : ℕ → Exec (Option ℕ)
scan_after prev = do
  data_end ← storage_data_end
  e ← storage_read prev
  scan_from data_end ((e.doc_off + e.doc_len) % size_mod)

-- The document of a live record, copied out of the mapping.
unfoldable pub read_live : ℕ → Exec (Option (List ℕ))
read_live offset = do
  e ← storage_read offset
  if e.status == record_live
      then (do raw ← peek e.doc_off e.doc_len; pure (some raw))
      else pure none

-- `CollectionHandle_read_record`
unfoldable pub read_record : ℤ → Method (Option (List ℕ))
read_record offset = with_offset offset read_live

-- `CollectionHandle_tombstone_record`
unfoldable pub tombstone_record : ℤ → Method (Unit {0})
tombstone_record offset = with_offset offset storage_tombstone

-- `CollectionHandle_next_live_offset`: -1 starts at the first record.
unfoldable pub next_live_offset : ℤ → Method (Option ℕ)
next_live_offset prev none = (raised value_error, none)
next_live_offset (pos prev) (some file) = with_open (scan_after prev) (some file)
next_live_offset (negsuc zero) (some file) = with_open scan_first (some file)
next_live_offset (negsuc (suc _)) (some file) = (raised value_error, some file)

-- `CollectionHandle_live_count` and `CollectionHandle_data_end`
unfoldable pub live_count : Method ℕ
live_count = with_open storage_live_count

unfoldable pub data_end : Method ℕ
data_end = with_open storage_data_end

module _ (os : Os) where
  -- `CollectionHandle_close`: a failure to mark the file clean leaves it open.
  unfoldable pub close : Method (Unit {0})
  close none = (returned tt, none)
  close (some file) = close_after (storage_mark_clean os file)

  -- `CollectionHandle_flush`
  unfoldable pub flush_handle : Method (Unit {0})
  flush_handle = with_open (flush os)

  -- `CollectionHandle_append_record`
  unfoldable pub append_record : List ℕ → Method ℕ
  append_record doc = with_open (storage_append os doc)

  unfoldable pub opened_handle : Bool → Result (Unit {0}) × MmapFile → Reply Handle
  opened_handle alloc (ok _, file) = if alloc then returned (some file) else raised memory_error
  opened_handle alloc (err s, file) = raised (storage_error_to_python s)
  opened_handle alloc (fault, file) = crashed
  opened_handle alloc (stuck, file) = hung

  unfoldable pub open_found : Bool → Result MmapFile → Reply Handle
  open_found alloc (ok file) = opened_handle alloc (storage_open_header os read_write file)
  open_found alloc (err s) = raised (storage_error_to_python s)
  open_found alloc fault = crashed
  open_found alloc stuck = hung

  -- `py_open_collection`; `alloc` says whether the interpreter has memory for the handle.
  unfoldable pub open_collection : Bool → Reply Handle
  open_collection alloc = open_found alloc (mmap_open os read_write 0)
