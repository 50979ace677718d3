-- ===== src/Storage/Handle/Cursor.antt =====
-- The walk of a cursor: `next_live_offset` from the start, and from a record.
use bsondb.Common.{
  ℕ, suc, ◌+◌, ◌%◌, ◌<◌, ◌≡◌, refl, sym, ap, ◌∙◌, arith, List, [], ◌∷◌, ◌++◌, some, length,
  append_assoc, length-append, if◌then◌else◌,
}
use bsondb.Common.Int.{pos, negsuc}
use bsondb.Bson.Result.{ok}
use bsondb.Bson.Wire.{size_mod}
use bsondb.Mmap.{MmapFile}
use bsondb.Storage.Image.{Rec, Represents}
use bsondb.Storage.Append.{end_of, length-image, storage_data_end-Represents}
use bsondb.Storage.Lookup.{before_end, bounded, storage_read_record}
use bsondb.Storage.Header.{visible}
use bsondb.Storage.Scanner.{Scanner, scanner_open, scanner_next, scanner_loop}
use bsondb.Storage.Walk.{first_live, scanner_at, scanner_loop_lem, end_of-append}
use bsondb.Mmap.Exec.{continue, pure}
use bsondb.Storage.Handle.{
  next_offset, returned, with_open, next_live_offset, scan_from, scan_first, scan_after,
}

module _ (file : MmapFile) (ys xs all : List Rec) (at : ℕ) (at_end : at ≡ end_of xs)
    (split : all ≡ xs ++ ys) (h : Represents file all) where
  enough : length ys < suc (end_of all)
  unfolding end_of
  enough = omega (arith, length-image all, ap (λ t. length t) split, length-append xs ys)

  opened : record (scanner_open (visible file) (end_of all)) { pos = at } ≡ scanner_at file at all
  unfolding scanner_open
  opened =
      ap (λ b. record { base = if b then file.bytes else []; data_end = end_of all; pos = at })
        h.mapped

  scan_from_lem : scan_from (end_of all) at file ≡ (ok (first_live at ys), file)
  unfolding scan_from scanner_next scanner_open
  scan_from_lem =
      let (o, e, e') =
        scanner_loop_lem file ys xs all at (suc (end_of all)) at_end split enough h in
      ap
        (λ (s : Scanner).
          continue (scanner_loop (suc (end_of all)) s) (λ found. pure (next_offset found)) file)
        opened
      ∙ ap (λ r. continue r (λ found. pure (next_offset found)) file) e
      ∙ ap (λ o. (ok o, file)) e'

module _ (file : MmapFile) (recs : List Rec) (h : Represents file recs) where
  start : 64 ≡ end_of []
  unfolding end_of
  start = refl

  -- On a file that stands for `recs`: `next_live_offset(-1)` returns the offset of the first live record,
  -- or None where there is none, and changes nothing.
  pub next_live_offset_first :
      next_live_offset (negsuc 0) (some file) ≡ (returned (first_live 64 recs), some file)
  unfolding next_live_offset with_open scan_first
  next_live_offset_first =
      rw (storage_data_end-Represents h) (rw (scan_from_lem file recs [] recs 64 start refl h))

module _ (file : MmapFile) (xs : List Rec) (r : Rec) (ys : List Rec)
    (h : Represents file (xs ++ r ∷ ys)) where
  position : (end_of xs + 1 + length r.doc) % size_mod ≡ end_of xs + 1 + length r.doc
  position = omega (arith, before_end xs r ys h, bounded xs r ys h)

  -- From the offset of any record of the file, live or not: `next_live_offset` returns the offset of the
  -- first live record behind it, or None where there is none, and changes nothing.
  pub next_live_offset_after :
      next_live_offset (pos (end_of xs)) (some file)
      ≡ (returned (first_live (end_of xs + 1 + length r.doc) ys), some file)
  unfolding next_live_offset with_open scan_after
  next_live_offset_after =
      rw (storage_data_end-Represents h, storage_read_record xs r ys h)
        (rw (
          position,
          scan_from_lem file ys (xs ++ r ∷ []) (xs ++ r ∷ ys) (end_of xs + 1 + length r.doc)
              (sym (end_of-append xs r)) (sym (append_assoc xs (r ∷ []) ys)) h,
        ))
