-- ===== src/Storage/Handle/Reading.antt =====
-- The methods that only read leave the handle as it is, whatever offset they get.
use bsondb.Common.{
  ℕ, zero, suc, ◌+◌, ◌%◌, ◌≡◌, refl, ap, ◌∙◌, Bool, true, false, none, some, leb, ◌==◌,
  if◌then◌else◌, from_le,
}
use bsondb.Common.Int.{ℤ, pos, negsuc}
use bsondb.Bson.Result.{Result, ok, err, fault, stuck, record_not_found}
use bsondb.Bson.Wire.{size_mod}
use bsondb.Mmap.{MmapFile, Os, Outcome}
use bsondb.Mmap.Exec.{Exec, pure, raise, continue, ◌>>=◌, peek, read_u64}
use bsondb.Storage.Format.{record_live, storage_header_len}
use bsondb.Storage.Header.{storage_data_end, storage_live_count, visible, flush}
use bsondb.Storage.Records.{storage_read, read_entry, peek_u8}
use bsondb.Storage.Scanner.{scanner_next, scanner_open}
use bsondb.Storage.Handle.{
  Handle, with_open, with_offset, scan_from, scan_first, scan_after, read_live, read_record,
  next_live_offset, next_offset, live_count, data_end, flush_handle,
}

-- A call that leaves the file as it is.
abbrev Keeps : {A : Type 0} → Exec A → Type 0
Keeps m = (file : MmapFile) → (m file).1 ≡ file

module _ {A B : Type 0} (f : A → Exec B) (k : (a : A) → Keeps (f a)) where
  continue-Keeps : (r : Result A) (file : MmapFile) → (continue r f file).1 ≡ file
  continue-Keeps (ok a) file = k a file
  continue-Keeps (err s) file = refl
  continue-Keeps fault file = refl
  continue-Keeps stuck file = refl

  bind-Keeps : (m : Exec A) → Keeps m → Keeps (m >>= f)
  bind-Keeps m h file = continue-Keeps (m file).0 (m file).1 ∙ h file

if-Keeps : {A : Type 0} (b : Bool) (m k : Exec A) → Keeps m → Keeps k → Keeps (if b then m else k)
if-Keeps true m k h h' = h
if-Keeps false m k h h' = h'

either_keeps :
    {A : Type 0} (b : Bool) (r r' : Outcome A) (file : MmapFile)
    → r.1 ≡ file
    → r'.1 ≡ file
    → (if b then r else r').1 ≡ file
either_keeps true r r' file e e' = e
either_keeps false r r' file e e' = e'

peek-Keeps : (off n : ℕ) → Keeps (peek off n)
unfolding peek
peek-Keeps off n file = refl

read_u64-Keeps : (off : ℕ) → Keeps (read_u64 off)
unfolding read_u64
read_u64-Keeps off =
    bind-Keeps (λ raw. pure (from_le raw)) (λ _ _. refl) (peek off 8) (peek-Keeps off 8)

storage_data_end-Keeps : Keeps storage_data_end
unfolding storage_data_end
storage_data_end-Keeps file =
    either_keeps file.mapped (read_u64 16 file) (pure storage_header_len file) file
      (read_u64-Keeps 16 file) refl

storage_live_count-Keeps : Keeps storage_live_count
unfolding storage_live_count
storage_live_count-Keeps file =
    either_keeps file.mapped (read_u64 24 file) (pure 0 file) file (read_u64-Keeps 24 file) refl

storage_read-Keeps : (off : ℕ) → Keeps (storage_read off)
unfolding storage_read read_entry peek_u8
storage_read-Keeps off =
    bind-Keeps _
      (λ limit.
        if-Keeps (leb limit off) (raise record_not_found) _ (λ _. refl)
          (bind-Keeps (read_entry off limit) (λ status _. refl) (peek_u8 off) (λ _. refl)))
      storage_data_end storage_data_end-Keeps

read_live-Keeps : (off : ℕ) → Keeps (read_live off)
unfolding read_live
read_live-Keeps off =
    bind-Keeps _
      (λ e.
        if-Keeps (e.status == record_live) _ (pure none)
          (bind-Keeps (λ raw. pure (some raw)) (λ raw _. refl) (peek e.doc_off e.doc_len)
            (peek-Keeps e.doc_off e.doc_len))
          (λ _. refl))
      (storage_read off) (storage_read-Keeps off)

scan_from-Keeps : (limit start : ℕ) → Keeps (scan_from limit start)
unfolding scan_from
scan_from-Keeps limit start file =
    continue-Keeps (λ found. pure (next_offset found)) (λ _ _. refl)
      (scanner_next (record (scanner_open (visible file) limit) { pos = start })) file

scan_first-Keeps : Keeps scan_first
unfolding scan_first
scan_first-Keeps =
    bind-Keeps _ (λ limit. scan_from-Keeps limit 64) storage_data_end storage_data_end-Keeps

scan_after-Keeps : (prev : ℕ) → Keeps (scan_after prev)
unfolding scan_after
scan_after-Keeps prev =
    bind-Keeps _
      (λ limit.
        bind-Keeps _ (λ e. scan_from-Keeps limit ((e.doc_off + e.doc_len) % size_mod))
          (storage_read prev) (storage_read-Keeps prev))
      storage_data_end storage_data_end-Keeps

with_open-Keeps : {A : Type 0} (m : Exec A) → Keeps m → (h : Handle) → (with_open m h).1 ≡ h
unfolding with_open
with_open-Keeps m k none = refl
with_open-Keeps m k (some file) = ap (λ file. some file) (k file)

pub read_record-Keeps : (offset : ℤ) (h : Handle) → (read_record offset h).1 ≡ h
unfolding read_record with_offset
read_record-Keeps offset none = refl
read_record-Keeps (pos offset) (some file) =
    with_open-Keeps (read_live offset) (read_live-Keeps offset) (some file)
read_record-Keeps (negsuc n) (some file) = refl

pub next_live_offset-Keeps : (prev : ℤ) (h : Handle) → (next_live_offset prev h).1 ≡ h
unfolding next_live_offset
next_live_offset-Keeps prev none = refl
next_live_offset-Keeps (pos prev) (some file) =
    with_open-Keeps (scan_after prev) (scan_after-Keeps prev) (some file)
next_live_offset-Keeps (negsuc zero) (some file) =
    with_open-Keeps scan_first scan_first-Keeps (some file)
next_live_offset-Keeps (negsuc (suc n)) (some file) = refl

pub live_count-Keeps : (h : Handle) → (live_count h).1 ≡ h
unfolding live_count
live_count-Keeps = with_open-Keeps storage_live_count storage_live_count-Keeps

pub data_end-Keeps : (h : Handle) → (data_end h).1 ≡ h
unfolding data_end
data_end-Keeps = with_open-Keeps storage_data_end storage_data_end-Keeps

pub flush_handle-Keeps : (os : Os) (h : Handle) → (flush_handle os h).1 ≡ h
unfolding flush_handle
flush_handle-Keeps os = with_open-Keeps (flush os) (λ _. refl)
