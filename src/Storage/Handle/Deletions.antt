-- ===== src/Storage/Handle/Deletions.antt =====
-- Deletion through a `CollectionHandle`.
use bsondb.Common.{◌≡◌, ℕ, List, ◌∷◌, ◌++◌, Option, none, some}
use bsondb.Common.Int.{pos}
use bsondb.Mmap.{MmapFile}
use bsondb.Storage.Image.{Rec, Represents}
use bsondb.Storage.Append.{live_record, end_of}
use bsondb.Storage.Tombstone.{
  dead_record, storage_tombstone_dead, storage_tombstone_live, tombstoned, tombstoned-Represents,
}
use bsondb.Storage.Handle.{Reply, returned, with_open, with_offset, read_record, tombstone_record}
use bsondb.Storage.Handle.Documents.{read_record_lem}

-- The record is deleted; nobody reads it, and to delete it again changes nothing.
abbrev pub Deleted : List Rec → List ℕ → List Rec → Reply (Unit {0}) × Option MmapFile → Type 0
Deleted xs doc ys r =
    (file' : MmapFile) × (r ≡ (returned tt, some file'))
    × Represents file' (xs ++ dead_record doc ∷ ys)
    × (read_record (pos (end_of xs)) (some file') ≡ (returned none, some file'))
    × (tombstone_record (pos (end_of xs)) (some file') ≡ (returned tt, some file'))

module _ {file : MmapFile} (xs : List Rec) (doc : List ℕ) (ys : List Rec) where
  pub tombstone_dead :
      Represents file (xs ++ dead_record doc ∷ ys)
      → tombstone_record (pos (end_of xs)) (some file) ≡ (returned tt, some file)
  unfolding tombstone_record with_offset with_open
  tombstone_dead h = rw (storage_tombstone_dead xs doc ys h)

module _ (file : MmapFile) (xs : List Rec) (doc : List ℕ) (ys : List Rec)
    (h : Represents file (xs ++ live_record doc ∷ ys)) where
  tombstone_live :
      tombstone_record (pos (end_of xs)) (some file) ≡ (returned tt, some (tombstoned xs doc ys h))
  unfolding tombstone_record with_offset with_open
  tombstone_live = rw (storage_tombstone_live xs doc ys h)

  -- On a file that stands for records with a live one among them: `tombstone_record` at its offset
  -- returns, and leaves a file that stands for the same records with a tombstone in its place (counters
  -- included), in which `read_record` there returns None and a second `tombstone_record` changes nothing.
  pub tombstone_then_read : Deleted xs doc ys (tombstone_record (pos (end_of xs)) (some file))
  tombstone_then_read =
      let h' = tombstoned-Represents xs doc ys h in
      (
        tombstoned xs doc ys h,
        tombstone_live,
        h',
        read_record_lem xs (dead_record doc) ys h',
        tombstone_dead xs doc ys h',
      )
