-- ===== src/Storage/Image.antt =====
-- The abstract data file: a list of records, and what it means that a mapped file holds it.
use bsondb.Common.{
  ℕ, ◌+◌, ◌^◌, ◌≤◌, ◌<◌, ◌≡◌, ◌⊎◌, List, [], ◌∷◌, ◌++◌, true, ◌==◌, if◌then◌else◌, length, take,
  drop, slice, All, to_le, from_le,
}
use bsondb.Mmap.{MmapFile, read_write}
use bsondb.Storage.Format.{record_live, record_tombstone}

pub record Rec : Type 0 where
  pub status : ℕ
  pub doc : List ℕ

-- A document carries its own length in its first four bytes.
abbrev pub IsDoc : List ℕ → Type 0
IsDoc doc = (5 ≤ length doc) × (length doc < 2 ^ 31) × (from_le (take 4 doc) ≡ length doc)

abbrev pub IsRec : Rec → Type 0
IsRec r = ((r.status ≡ record_live) ⊎ (r.status ≡ record_tombstone)) × IsDoc r.doc

-- The records as bytes, back to back.
abbrev pub image : List Rec → List ℕ
image [] = []
image (r ∷ rs) = (r.status ∷ r.doc) ++ image rs

abbrev pub live_count : List Rec → ℕ
live_count [] = 0
live_count (r ∷ rs) = if r.status == record_live then live_count rs + 1 else live_count rs

-- The counters of the header.
pub record HasCounters (bytes : List ℕ) (data_end live total : ℕ) : Type 0 where
  pub data_end_field : slice bytes 16 8 ≡ to_le 8 data_end
  pub live_field : slice bytes 24 8 ≡ to_le 8 live
  pub total_field : slice bytes 32 8 ≡ to_le 8 total

-- `file` is mapped for writing, holds the records behind its header, and its counters say so. Behind
-- the records there is `slack`, which the file was grown by in advance.
pub record Represents (file : MmapFile) (recs : List Rec) : Type 0 where
  pub mapped : file.mapped ≡ true
  pub writable : file.mode ≡ read_write
  pub counters : HasCounters file.bytes (64 + length (image recs)) (live_count recs) (length recs)
  pub slack : List ℕ
  pub body : drop 64 file.bytes ≡ image recs ++ slack
  pub header : 64 ≤ length file.bytes
  pub valid : All IsRec recs
  pub small : length file.bytes < 2 ^ 62
