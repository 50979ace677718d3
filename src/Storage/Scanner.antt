-- ===== src/Storage/Scanner.antt =====
-- src/c_engine/scanner.c: the walk over the live records of a data file, on the bytes of its mapping.
use bsondb.Common.{
  ℕ, zero, suc, ◌+◌, ◌%◌, List, true, false, Option, none, some, ltb, ◌==◌, if◌then◌else◌,
}
use bsondb.Common.Int.{ℤ, pos, ltb_ℤ, to_size}
use bsondb.Bson.Result.{
  Result, ok, err, fault, stuck, ◌>>=◌, byte_at, invalid_length, truncated_buffer,
}
use bsondb.Bson.Wire.{doc_min_len, size_mod}
use bsondb.Bson.Reader.{Reader}
use bsondb.Storage.Format.{storage_header_len, record_live}
use bsondb.Storage.Records.{Entry, read_length}

-- `bson_scanner_t`; `base` is the bytes of the mapping.
pub record Scanner : Type 0 where
  pub base : List ℕ
  pub data_end : ℕ
  pub pos : ℕ

-- `bson_scanner_open`
unfoldable pub scanner_open : List ℕ → ℕ → Scanner
scanner_open base data_end = record { base = base; data_end = data_end; pos = storage_header_len }

-- The length tests of one round: the length of the record at `pos`.
unfoldable pub record_length : Scanner → Result (ℤ × Reader) → Result ℕ
record_length s (ok (doc_len, _)) =
    if ltb_ℤ doc_len (pos doc_min_len)
    then err invalid_length
    else if ltb s.data_end ((s.pos + (1 + to_size doc_len)) % size_mod)
    then err truncated_buffer
    else ok (to_size doc_len)
record_length s (err e) = err invalid_length
record_length s fault = fault
record_length s stuck = stuck

-- One round of the loop at `pos`: the record there, and the scanner behind it.
unfoldable pub scan_record : Scanner → Result (Entry × Scanner)
scan_record s = if ltb s.data_end (s.pos + 1) then err truncated_buffer else do
  status ← byte_at s.base s.pos
  doc_len ← record_length s (read_length s.base (s.pos + 1) s.data_end)
  ok (
    record { status = status; doc_off = s.pos + 1; doc_len = doc_len },
    record s { pos = (s.pos + (1 + doc_len)) % size_mod },
  )

-- `bson_scanner_next`: `none` is `false` at the clean end of the data. The offset of the record is one
-- less than that of its document. A record takes six bytes at least, so `data_end` rounds are enough.
unfoldable pub scanner_loop : ℕ → Scanner → Result (Option (Entry × Scanner))
scanner_loop zero s = stuck
scanner_loop (suc rounds) s = elim (ltb s.pos s.data_end) [
  | false ↦ ok none
  | true ↦ scan_record s >>= λ (e, s'). elim (e.status == record_live) [
    | true ↦ ok (some (e, s'))
    | false ↦ scanner_loop rounds s'
  ]
]

unfoldable pub scanner_next : Scanner → Result (Option (Entry × Scanner))
scanner_next s = scanner_loop (suc s.data_end) s
