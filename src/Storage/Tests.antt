-- ===== src/Storage/Tests.antt =====
-- Runs of the storage and its theorems on a small file.
use bsondb.Common.{
  ◌≤◌, ℕ, ◌+◌, ◌^◌, ◌<◌, ◌≡◌, refl, sym, subst, ap, inl, inr, List, [], ◌∷◌, ◌++◌, Bool, true,
  Option, none, some, arith, length, replicate, to_le, from_le,
}
use bsondb.Common.Int.{pos, negsuc}
use bsondb.Mmap.{MmapFile, read_write, Os, resized}
use bsondb.Storage.Format.{record_tombstone}
use bsondb.Storage.Image.{Rec, IsDoc, Represents}
use bsondb.Storage.Append.{live_record, end_of}
use bsondb.Storage.Handle.{
  Handle, returned, with_open, with_offset, read_live, read_record, append_record, tombstone_record,
  next_live_offset,
}
use bsondb.Bson.Result.{ok, store}
use bsondb.Mmap.{mmap_size}
use bsondb.Mmap.Exec.{peek, poke, read_u64, write_u64}
use bsondb.Storage.Records.{
  storage_tombstone, storage_read, read_entry, read_length, entry_of, peek_u8, storage_append,
  make_room, write_record,
}
use bsondb.Storage.Header.{storage_data_end}
use bsondb.Bson.Wire.{max_document_size}
use bsondb.Bson.Validate.{validate_document, validate_recursive}
use bsondb.Bson.Iter
use bsondb.Bson.Reader
use bsondb.Storage.Header.{storage_recover}
use bsondb.Storage.Recovery.Repair.{IsUncounted, Recovered, storage_recover_lem}
use bsondb.Storage.Walk.{first_live}
use bsondb.Storage.Handle.Cursor.{next_live_offset_first, next_live_offset_after}
use bsondb.Storage.Handle.Deletions.{Deleted, tombstone_then_read}
use bsondb.Codec.Value
use bsondb.Codec.Value.{PyObject}
use bsondb.Storage.Handle.Sessions.{
  Session, ComesBack, opened, appended, deleted, read, Stands, session_lem,
}
use bsondb.Storage.Handle.Documents.{ReadsBack, document_of, read_record_lem, append_then_read}

abbrev unwrap : Option (List ℕ) → List ℕ
unwrap none = []
unwrap (some bytes) = bytes

-- A system on which every call succeeds.
abbrev pub willing : Os
willing = record {
  open_file = λ mode. some [];
  ftruncate = λ bytes n. some (resized bytes n);
  ftruncate-resized = λ bytes n bytes' e. sym (ap unwrap e);
  mmap = λ n. true;
  msync = λ bytes. true;
  malloc = true;
}

abbrev empty_doc : List ℕ
empty_doc = 5 ∷ 0 ∷ 0 ∷ 0 ∷ 0 ∷ []

empty_doc-IsDoc : IsDoc empty_doc
unfolding from_le
empty_doc-IsDoc = (omega arith, omega arith, refl)

abbrev tombstoned : Rec
tombstoned = record { status = record_tombstone; doc = empty_doc }

-- The header of a file with the records `recs`, then its records, with no room to spare.
abbrev header_bytes : ℕ → ℕ → ℕ → List ℕ
header_bytes data_end live total =
    replicate 16 0 ++ (to_le 8 data_end ++ (to_le 8 live ++ (to_le 8 total ++ replicate 24 0)))

abbrev two_records : MmapFile
two_records = record {
  mode = read_write;
  bytes = header_bytes 76 1 2 ++ (1 ∷ empty_doc ++ 2 ∷ empty_doc);
  mapped = true;
}

two_records-Represents : Represents two_records (live_record empty_doc ∷ tombstoned ∷ [])
unfolding to_le from_le
two_records-Represents = record {
  mapped = refl;
  writable = refl;
  counters = record { data_end_field = refl; live_field = refl; total_field = refl };
  slack = [];
  body = refl;
  header = omega arith;
  valid = ((inl refl, empty_doc-IsDoc), ((inr refl, empty_doc-IsDoc), tt));
  small = omega arith;
}

small : end_of (live_record empty_doc ∷ tombstoned ∷ []) + 1 + length empty_doc < 2 ^ 60
unfolding end_of
small = omega arith

append_then_read_example :
    ReadsBack willing two_records
      (live_record empty_doc ∷ tombstoned ∷ [])
      two_records-Represents
      empty_doc
      (append_record willing empty_doc (some two_records))
append_then_read_example =
    append_then_read willing two_records (live_record empty_doc ∷ tombstoned ∷ [])
      two_records-Represents empty_doc empty_doc-IsDoc small

read_record_lem_example :
    read_record (pos (end_of (live_record empty_doc ∷ []))) (some two_records)
    ≡ (returned (document_of tombstoned), some two_records)
read_record_lem_example =
    read_record_lem (live_record empty_doc ∷ []) tombstoned [] two_records-Represents

tombstone_then_read_example :
    Deleted [] empty_doc (tombstoned ∷ []) (tombstone_record (pos (end_of [])) (some two_records))
tombstone_then_read_example =
    tombstone_then_read two_records [] empty_doc (tombstoned ∷ []) two_records-Represents

next_live_offset_first_example :
    next_live_offset (negsuc 0) (some two_records)
    ≡ (returned (first_live 64 (live_record empty_doc ∷ tombstoned ∷ [])), some two_records)
next_live_offset_first_example =
    next_live_offset_first two_records (live_record empty_doc ∷ tombstoned ∷ [])
      two_records-Represents

next_live_offset_after_example :
    next_live_offset (pos (end_of [])) (some two_records)
    ≡ (returned (first_live (end_of [] + 1 + length empty_doc) (tombstoned ∷ [])), some two_records)
next_live_offset_after_example =
    next_live_offset_after two_records [] (live_record empty_doc) (tombstoned ∷ [])
      two_records-Represents

-- The same records in a file whose counters were lost, and that was grown before the crash.
abbrev crashed_file : MmapFile
crashed_file = record {
  mode = read_write;
  bytes = replicate 64 0 ++ (1 ∷ empty_doc ++ (2 ∷ empty_doc ++ (0 ∷ 0 ∷ [])));
  mapped = true;
}

empty_doc_validates : (rest : List ℕ) → validate_document (empty_doc ++ rest) 5 ≡ ok tt
unfolding validate_document validate_recursive Iter.init_nested Iter.next Iter.end_of_document
    Reader.init Reader.remaining Reader.read_i32 Reader.read_u8 Reader.load from_le
empty_doc_validates rest = refl

sized : 5 ≤ max_document_size
sized = omega arith

crashed_file-IsUncounted : IsUncounted crashed_file (live_record empty_doc ∷ tombstoned ∷ [])
crashed_file-IsUncounted = record {
  mapped = refl;
  writable = refl;
  slack = 0 ∷ 0 ∷ [];
  body = refl;
  unused = refl;
  header = omega arith;
  sound = (
    ((inl refl, empty_doc-IsDoc), sized, empty_doc_validates),
    (((inr refl, empty_doc-IsDoc), sized, empty_doc_validates), tt),
  );
  small = omega arith;
}

storage_recover_lem_example :
    Recovered (live_record empty_doc ∷ tombstoned ∷ []) (storage_recover crashed_file)
storage_recover_lem_example =
    storage_recover_lem crashed_file (live_record empty_doc ∷ tombstoned ∷ [])
      crashed_file-IsUncounted

-- The same records in a file with room for two more.
abbrev roomy_records : MmapFile
roomy_records = record two_records { bytes = two_records.bytes ++ replicate 12 0 }

roomy_records-Represents : Represents roomy_records (live_record empty_doc ∷ tombstoned ∷ [])
unfolding to_le from_le
roomy_records-Represents = record {
  mapped = refl;
  writable = refl;
  counters = record { data_end_field = refl; live_field = refl; total_field = refl };
  slack = replicate 12 0;
  body = refl;
  header = omega arith;
  valid = ((inl refl, empty_doc-IsDoc), ((inr refl, empty_doc-IsDoc), tt));
  small = omega arith;
}

append_returns : (append_record willing empty_doc (some roomy_records)).0 ≡ returned 76
unfolding append_record with_open storage_append storage_data_end read_u64 peek Reader.load from_le
    make_room write_record poke store write_u64 to_le mmap_size
append_returns = refl

appended_handle : Handle
appended_handle = (append_record willing empty_doc (some roomy_records)).1

final_handle : Handle
final_handle = (tombstone_record (pos (end_of [])) appended_handle).1

read_returns : (read_record (pos 70) final_handle).0 ≡ returned none
unfolding final_handle appended_handle append_record with_open storage_append storage_data_end
    read_u64 peek Reader.load from_le make_room write_record poke store write_u64 to_le mmap_size
    tombstone_record with_offset storage_tombstone end_of read_record read_live storage_read
    read_entry read_length entry_of peek_u8 Reader.init Reader.read_i32 Reader.remaining
read_returns = refl

-- An append, the deletion of the first record, and a read.
some_session :
    Session
      (some roomy_records)
      (live_record empty_doc ∷ tombstoned ∷ [])
      (read_record (pos 70) final_handle).1
      (tombstoned ∷ tombstoned ∷ live_record empty_doc ∷ [])
unfolding final_handle appended_handle
some_session =
    read (pos 70)
      (deleted [] empty_doc (tombstoned ∷ live_record empty_doc ∷ [])
        (appended willing empty_doc 76 opened empty_doc-IsDoc small append_returns))
      (subst ComesBack (sym read_returns) tt)

session_lem_example :
    Stands
      (read_record (pos 70) final_handle).1
      (tombstoned ∷ tombstoned ∷ live_record empty_doc ∷ [])
    × (read_record
          (pos (end_of (tombstoned ∷ tombstoned ∷ [])))
          (read_record (pos 70) final_handle).1
        ≡ (returned (some empty_doc), (read_record (pos 70) final_handle).1))
session_lem_example =
    session_lem (some roomy_records) (live_record empty_doc ∷ tombstoned ∷ [])
      (read_record (pos 70) final_handle).1 (tombstoned ∷ tombstoned ∷ []) (live_record empty_doc)
      [] (roomy_records, refl, roomy_records-Represents) some_session

-- A filter that lets every document pass.
abbrev any_document : PyObject → Value.Reply Bool
any_document doc = Value.returned true
