-- ===== src/Storage/Handle/Enumeration.antt =====
-- The walk over a collection by `next_live_offset`, `read_record` and `decode` of
-- python/bsondb/collection.py.
use bsondb.Common.{
  ℕ, zero, suc, ◌+◌, ◌<◌, ◌≡◌, ◌⊎◌, List, [], ◌∷◌, ◌++◌, Option, none, some, ◌==◌, if◌then◌else◌,
  length, Bool, true, false,
}
use bsondb.Common.Int.{ℤ, pos}
use bsondb.Storage.Format.{record_live}
use bsondb.Storage.Image.{Rec}
use bsondb.Storage.Append.{end_of}
use bsondb.Storage.Walk.{first_live}
use bsondb.Codec.Value
use bsondb.Codec.Value.{PyObject, Exception}
use bsondb.Codec.Decode.{decode}
use bsondb.Storage.Handle
use bsondb.Storage.Handle.{Reply, PyError, Handle, next_live_offset, read_record}

-- How a walk ends: behind the last record, by an exception of the storage or of `decode` or `matches`, or
-- not at all.
pub data Ending : Type 0 where
  finished : Ending
  storage_raised : PyError → Ending
  raised : Exception → Ending
  crashed hung : Ending

-- What the generator yields, and how it ends.
abbrev pub Scan : Type 0
Scan = List (ℕ × PyObject) × Ending

abbrev prepend : ℕ × PyObject → Scan × Handle → Scan × Handle
prepend found ((rest, ending), h) = ((found ∷ rest, ending), h)

-- `matches(doc, resolved_filter)` is a function of the document.
module _ (matches : PyObject → Value.Reply Bool) where
  -- What follows `matches(doc, resolved_filter)`.
  abbrev filtered :
      (Handle → Scan × Handle) → ℕ → PyObject → Value.Reply Bool → Handle → Scan × Handle
  filtered more offset doc (Value.returned true) h = prepend (offset, doc) (more h)
  filtered more offset doc (Value.returned false) h = more h
  filtered more offset doc (Value.raised e) h = (([], Ending.raised e), h)
  filtered more offset doc Value.crashed h = (([], Ending.crashed), h)
  filtered more offset doc Value.hung h = (([], Ending.hung), h)

  -- What follows `decode(raw)`.
  abbrev decoded : (Handle → Scan × Handle) → ℕ → Value.Reply PyObject → Handle → Scan × Handle
  decoded more offset (Value.returned doc) h = filtered more offset doc (matches doc) h
  decoded more offset (Value.raised e) h = (([], Ending.raised e), h)
  decoded more offset Value.crashed h = (([], Ending.crashed), h)
  decoded more offset Value.hung h = (([], Ending.hung), h)

  -- What follows `read_record(offset)`: a record that was deleted in between is left out.
  abbrev read_then : (Handle → Scan × Handle) → ℕ → Reply (Option (List ℕ)) × Handle → Scan × Handle
  read_then more offset (Handle.returned none, h) = more h
  read_then more offset (Handle.returned (some raw), h) = decoded more offset (decode raw) h
  read_then more offset (Handle.raised e, h) = (([], storage_raised e), h)
  read_then more offset (Handle.crashed, h) = (([], Ending.crashed), h)
  read_then more offset (Handle.hung, h) = (([], Ending.hung), h)

  -- What follows `next_live_offset(prev)`.
  abbrev follow : (ℤ → Handle → Scan × Handle) → Reply (Option ℕ) × Handle → Scan × Handle
  follow more (Handle.returned none, h) = (([], finished), h)
  follow more (Handle.returned (some offset), h) =
      read_then (more (pos offset)) offset (read_record (pos offset) h)
  follow more (Handle.raised e, h) = (([], storage_raised e), h)
  follow more (Handle.crashed, h) = (([], Ending.crashed), h)
  follow more (Handle.hung, h) = (([], Ending.hung), h)

  -- `while True` from `prev` on.
  unfoldable pub iterate : ℕ → ℤ → Handle → Scan × Handle
  iterate zero prev h = (([], Ending.hung), h)
  iterate (suc fuel) prev h = follow (iterate fuel) (next_live_offset prev h)

  -- The same of a list of documents, without a file.
  abbrev passed : ℕ × PyObject → Value.Reply Bool → Scan → Scan
  passed found (Value.returned true) (rest, ending) = (found ∷ rest, ending)
  passed found (Value.returned false) rest = rest
  passed found (Value.raised e) rest = ([], Ending.raised e)
  passed found Value.crashed rest = ([], Ending.crashed)
  passed found Value.hung rest = ([], Ending.hung)

  abbrev chosen : ℕ → Value.Reply PyObject → Scan → Scan
  chosen offset (Value.returned doc) rest = passed (offset, doc) (matches doc) rest
  chosen offset (Value.raised e) rest = ([], Ending.raised e)
  chosen offset Value.crashed rest = ([], Ending.crashed)
  chosen offset Value.hung rest = ([], Ending.hung)

  abbrev pub selected : List (ℕ × List ℕ) → Scan
  selected [] = ([], finished)
  selected ((offset, raw) ∷ found) = chosen offset (decode raw) (selected found)

-- The live records of `recs`, which begin at the offset `at`.
abbrev pub live_records : ℕ → List Rec → List (ℕ × List ℕ)
live_records at [] = []
live_records at (r ∷ recs) =
    let rest = live_records (at + 1 + length r.doc) recs in
    if r.status == record_live then (at, r.doc) ∷ rest else rest

-- No record of `ys` is live, or there is a first one, behind `before`.
record IsNext (xs ys : List Rec) (at : ℕ) (before : List Rec) (q : Rec) (zs : List Rec)
    : Type 0 where
  same : xs ++ ys ≡ before ++ q ∷ zs
  shorter : length zs < length ys
  live : (q.status == record_live) ≡ true
  found : first_live at ys ≡ some (end_of before)
  listed :
      live_records at ys
      ≡ (end_of before, q.doc) ∷ live_records (end_of before + 1 + length q.doc) zs

abbrev Next : List Rec → List Rec → ℕ → Type 0
Next xs ys at =
    ((first_live at ys ≡ none) × (live_records at ys ≡ []))
    ⊎ ((before : List Rec) × (q : Rec) × (zs : List Rec) × IsNext xs ys at before q zs)
