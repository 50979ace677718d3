-- ===== src/Storage/Handle/Sessions.antt =====
-- Any sequence of calls on an open `CollectionHandle`.
use bsondb.Common.{ℕ, ◌+◌, ◌^◌, ◌<◌, ◌≡◌, sym, ap, ◌∙◌, inl, inr, List, [], ◌∷◌, ◌++◌, some, length}
use bsondb.Common.Int.{ℤ, pos}
use bsondb.Mmap.{MmapFile, Os}
use bsondb.Storage.Image.{Rec, IsDoc, Represents}
use bsondb.Storage.Append.{live_record, end_of}
use bsondb.Storage.Tombstone.{dead_record}
use bsondb.Storage.Handle.{
  Reply, returned, raised, crashed, hung, PyError, Handle, read_record, append_record,
  tombstone_record, next_live_offset, live_count, data_end, flush_handle, close,
}
use bsondb.Storage.Handle.Documents.{document_of, read_record_lem, append_then_read}
use bsondb.Storage.Handle.Deletions.{tombstone_dead, tombstone_then_read}
use bsondb.Storage.Handle.Closing.{close_lem}
use bsondb.Storage.Handle.Reading.{
  read_record-Keeps, next_live_offset-Keeps, live_count-Keeps, data_end-Keeps, flush_handle-Keeps,
}

-- A call that comes back, with a value or an exception.
abbrev pub ComesBack {ℓ} : {A : Type ℓ} → Reply A → Type 0
ComesBack (returned a) = Unit
ComesBack (raised e) = Unit
ComesBack crashed = ⊥
ComesBack hung = ⊥

-- The handles to which calls lead from `first`, which stands for `start`, with the records that each
-- should stand for. The system may change from call to call. An append is one that returned, of a
-- well-formed document; a deletion is at the offset of a record; a read or a step of the scan may have any offset, but has to come back with a
-- value or an exception (at an offset inside a record the engine may read outside the mapping).
pub data Session (first : Handle) (start : List Rec) : Handle → List Rec → Type 0 where
  opened : Session first start first start
  appended :
      {h : Handle} {recs : List Rec} (os : Os) (doc : List ℕ) (offset : ℕ)
      → Session first start h recs
      → IsDoc doc
      → end_of recs + 1 + length doc < 2 ^ 60
      → (append_record os doc h).0 ≡ returned offset
      → Session first start (append_record os doc h).1 (recs ++ live_record doc ∷ [])
  deleted :
      {h : Handle} (xs : List Rec) (doc : List ℕ) (ys : List Rec)
      → Session first start h (xs ++ live_record doc ∷ ys)
      → Session first start (tombstone_record (pos (end_of xs)) h).1 (xs ++ dead_record doc ∷ ys)
  deleted_again :
      {h : Handle} (xs : List Rec) (doc : List ℕ) (ys : List Rec)
      → Session first start h (xs ++ dead_record doc ∷ ys)
      → Session first start (tombstone_record (pos (end_of xs)) h).1 (xs ++ dead_record doc ∷ ys)
  read :
      {h : Handle} {recs : List Rec} (offset : ℤ)
      → Session first start h recs
      → ComesBack (read_record offset h).0
      → Session first start (read_record offset h).1 recs
  advanced :
      {h : Handle} {recs : List Rec} (prev : ℤ)
      → Session first start h recs
      → ComesBack (next_live_offset prev h).0
      → Session first start (next_live_offset prev h).1 recs
  counted :
      {h : Handle} {recs : List Rec}
      → Session first start h recs
      → Session first start (live_count h).1 recs
  measured :
      {h : Handle} {recs : List Rec}
      → Session first start h recs
      → Session first start (data_end h).1 recs
  flushed :
      {h : Handle} {recs : List Rec} (os : Os)
      → Session first start h recs
      → Session first start (flush_handle os h).1 recs
  not_closed :
      {h : Handle} {recs : List Rec} (os : Os) (e : PyError)
      → Session first start h recs
      → (close os h).0 ≡ raised e
      → Session first start (close os h).1 recs

-- The handle is open on a file that stands for the records.
abbrev pub Stands : Handle → List Rec → Type 0
Stands h recs = (file : MmapFile) × (h ≡ some file) × Represents file recs

Stands-same : (h h' : Handle) (recs : List Rec) → h' ≡ h → Stands h recs → Stands h' recs
Stands-same h h' recs e (file, e', k) = (file, e ∙ e', k)

appended-Stands :
    (os : Os) (doc : List ℕ) (offset : ℕ) (h : Handle) (recs : List Rec)
    → IsDoc doc
    → end_of recs + 1 + length doc < 2 ^ 60
    → (append_record os doc h).0 ≡ returned offset
    → Stands h recs
    → Stands (append_record os doc h).1 (recs ++ live_record doc ∷ [])
appended-Stands os doc offset h recs ok small e (file, e', k) =
    rw e' (elim (append_then_read os file recs k doc ok small) [
      | inl (file', done, k', _) ↦ (file', ap (λ r. r.1) done, k')
      | inr (after, failed, _) ↦
          absurd (cc (sym e ∙ ap (λ h. (append_record os doc h).0) e' ∙ ap (λ r. r.0) failed))
    ])

deleted-Stands :
    (h : Handle) (xs : List Rec) (doc : List ℕ) (ys : List Rec)
    → Stands h (xs ++ live_record doc ∷ ys)
    → Stands (tombstone_record (pos (end_of xs)) h).1 (xs ++ dead_record doc ∷ ys)
deleted-Stands h xs doc ys (file, e, k) =
    let (file', done, k', _, _) = tombstone_then_read file xs doc ys k in
    (file', ap (λ h. (tombstone_record (pos (end_of xs)) h).1) e ∙ ap (λ r. r.1) done, k')

deleted_again-Stands :
    (h : Handle) (xs : List Rec) (doc : List ℕ) (ys : List Rec)
    → Stands h (xs ++ dead_record doc ∷ ys)
    → Stands (tombstone_record (pos (end_of xs)) h).1 (xs ++ dead_record doc ∷ ys)
deleted_again-Stands h xs doc ys (file, e, k) = (
  file,
  ap (λ h. (tombstone_record (pos (end_of xs)) h).1) e ∙ ap (λ r. r.1) (tombstone_dead xs doc ys k),
  k,
)

not_closed-Stands :
    (os : Os) (error : PyError) (h : Handle) (recs : List Rec)
    → (close os h).0 ≡ raised error
    → Stands h recs
    → Stands (close os h).1 recs
not_closed-Stands os error h recs e (file, e', k) =
    let (clean, _, k', _, outcome) = close_lem os file recs k in
    elim outcome [
      | inl (_, closed) ↦ absurd (cc (sym e ∙ ap (λ h. (close os h).0) e' ∙ ap (λ r. r.0) closed))
      | inr (_, failed) ↦ (clean, ap (λ h. (close os h).1) e' ∙ ap (λ r. r.1) failed, k')
    ]

session-Stands :
    {first : Handle} {start : List Rec} {h : Handle} {recs : List Rec}
    → Session first start h recs
    → Stands first start
    → Stands h recs
session-Stands opened k = k
session-Stands (appended {h = h} {recs = recs} os doc offset s ok small e) k =
    appended-Stands os doc offset h recs ok small e (session-Stands s k)
session-Stands (deleted {h = h} xs doc ys s) k = deleted-Stands h xs doc ys (session-Stands s k)
session-Stands (deleted_again {h = h} xs doc ys s) k =
    deleted_again-Stands h xs doc ys (session-Stands s k)
session-Stands (read {h = h} {recs = recs} offset s _) k =
    Stands-same h _ recs (read_record-Keeps offset h) (session-Stands s k)
session-Stands (advanced {h = h} {recs = recs} prev s _) k =
    Stands-same h _ recs (next_live_offset-Keeps prev h) (session-Stands s k)
session-Stands (counted {h = h} {recs = recs} s) k =
    Stands-same h _ recs (live_count-Keeps h) (session-Stands s k)
session-Stands (measured {h = h} {recs = recs} s) k =
    Stands-same h _ recs (data_end-Keeps h) (session-Stands s k)
session-Stands (flushed {h = h} {recs = recs} os s) k =
    Stands-same h _ recs (flush_handle-Keeps os h) (session-Stands s k)
session-Stands (not_closed {h = h} {recs = recs} os error s e) k =
    not_closed-Stands os error h recs e (session-Stands s k)

-- From a handle that is open on a file that stands for some records, after any calls of `Session`: it is
-- open on a file that stands for the records that these calls make of them (appended ones behind the
-- others, deleted ones as tombstones in their places, counters included), and `read_record` at the
-- offset of each gives its document, or None for a tombstone, and changes nothing.
pub session_lem :
    (first : Handle) (start : List Rec) (h : Handle) (xs : List Rec) (r : Rec) (ys : List Rec)
    → Stands first start
    → Session first start h (xs ++ r ∷ ys)
    → Stands h (xs ++ r ∷ ys) × (read_record (pos (end_of xs)) h ≡ (returned (document_of r), h))
session_lem first start h xs r ys k s =
    let (file, e, k') = session-Stands s k in ((file, e, k'), rw e (read_record_lem xs r ys k'))
