-- ===== src/Storage/Handle/Documents.antt =====
-- Documents through a `CollectionHandle`: what is read at an offset, and what an append leaves there.
use bsondb.Common.{
  ℕ, ◌+◌, ◌^◌, ◌<◌, ◌≡◌, refl, ap, ◌∙◌, ◌⊎◌, inl, inr, List, [], ◌∷◌, ◌++◌, Bool, true, false,
  Option, none, some, ◌==◌, if◌then◌else◌, arith, length, take, take-append,
}
use bsondb.Common.Int.{pos}
use bsondb.Bson.Result.{ok}
use bsondb.Mmap.{MmapFile, Os, Outcome}
use bsondb.Mmap.Exec.{pure, ◌>>=◌, peek}
use bsondb.Storage.Format.{record_live}
use bsondb.Storage.Image.{Rec, IsDoc, Represents}
use bsondb.Storage.Access.{peek-slice}
use bsondb.Storage.Append.{live_record, end_of, length_bytes}
use bsondb.Storage.Growth.{Stuck}
use bsondb.Storage.Append.Outcome.{Appended, storage_append_cases}
use bsondb.Storage.Records.{storage_append}
use bsondb.Storage.Lookup.{rest, from_doc, before_end, storage_read_record}
use bsondb.Storage.Handle.{
  Reply, returned, raised, os_error, Handle, with_open, with_offset, read_live, read_record,
  append_record, storage_error_to_python,
}

-- What `read_record` gives for a record.
abbrev pub document_of : Rec → Option (List ℕ)
document_of r = if r.status == record_live then some r.doc else none

module _ {file : MmapFile} (xs : List Rec) (r : Rec) (ys : List Rec)
    (h : Represents file (xs ++ r ∷ ys)) where
  doc_there : peek (end_of xs + 1) (length r.doc) file ≡ (ok r.doc, file)
  doc_there =
      peek-slice file h.mapped (end_of xs + 1) (length r.doc)
        (omega (arith, before_end xs r ys h, length_bytes h))
      ∙ ap (λ t. (ok (take (length r.doc) t), file)) (from_doc xs r ys h)
      ∙ ap (λ t. (ok t, file)) (take-append r.doc (rest xs r ys h))

  live_or_none :
      (b : Bool)
      → (if b then (do raw ← peek (end_of xs + 1) (length r.doc); pure (some raw)) else pure none)
          file
        ≡ (ok (if b then some r.doc else none), file)
  live_or_none true = rw doc_there
  live_or_none false = refl

  read_live_lem : read_live (end_of xs) file ≡ (ok (document_of r), file)
  unfolding read_live
  read_live_lem = rw (storage_read_record xs r ys h) (live_or_none (r.status == record_live))

  -- On a file that stands for a list of records: at the offset of any of them, `read_record` returns its
  -- document where it is live and None where it is a tombstone, and changes nothing.
  pub read_record_lem :
      read_record (pos (end_of xs)) (some file) ≡ (returned (document_of r), some file)
  unfolding read_record with_offset with_open
  read_record_lem = rw read_live_lem

-- The offset that `append_record` returned gives the document back, or the call raised an OSError: then
-- the file has no room for the record, and an `ftruncate` or `mmap` to a size that has room fails.
abbrev pub ReadsBack :
    (os : Os) (file : MmapFile) (recs : List Rec)
    → Represents file recs
    → List ℕ
    → Reply ℕ × Handle
    → Type 0
ReadsBack os file recs h doc r =
    ((file' : MmapFile) × (r ≡ (returned (end_of recs), some file'))
      × Represents file' (recs ++ live_record doc ∷ [])
      × (read_record (pos (end_of recs)) (some file') ≡ (returned (some doc), some file')))
    ⊎ ((after : MmapFile) × (r ≡ (raised os_error, some after))
        × Stuck h os (end_of recs + 1 + length doc))

module _ (os : Os) (file : MmapFile) (recs : List Rec) (h : Represents file recs) (doc : List ℕ)
    (doc_ok : IsDoc doc) (small : end_of recs + 1 + length doc < 2 ^ 60) where
  reads :
      (r : Outcome ℕ)
      → Appended os file recs h doc r
      → ReadsBack os file recs h doc (with_open (λ _. r) (some file))
  unfolding with_open storage_error_to_python
  reads r (inl (file', e, h')) = inl (
    file',
    ap (λ r. with_open (λ _. r) (some file)) e,
    h',
    read_record_lem recs (live_record doc) [] h',
  )
  reads r (inr (after, e, stuck)) = inr (after, ap (λ r. with_open (λ _. r) (some file)) e, stuck)

  -- On a file that stands for `recs`, with a well-formed document and an end of the data below 2 ^ 60:
  -- `append_record` returns the end of the data and leaves a file that stands for `recs` and the live
  -- record, in which `read_record` there returns the document; or it raises an OSError, only where the
  -- file is shorter than the new end of the data and the system fails an `ftruncate` or `mmap` to a size
  -- that is enough.
  pub append_then_read : ReadsBack os file recs h doc (append_record os doc (some file))
  unfolding append_record with_open
  append_then_read =
      reads (storage_append os doc file) (storage_append_cases os file recs h doc doc_ok small)
