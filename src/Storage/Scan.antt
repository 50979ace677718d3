-- ===== src/Storage/Scan.antt =====
-- The scan of `bson_storage_recover`: the loop over the records, on the bytes of the whole mapping.
use bsondb.Common.{
  ℕ, zero, suc, ◌+◌, ◌-◌, List, true, false, ltb, ◌==◌, ◌||◌, if◌then◌else◌, length, drop,
}
use bsondb.Common.Int.{ℤ, pos, ltb_ℤ, to_size}
use bsondb.Bson.Result.{Result, ok, err, fault, stuck, ◌>>=◌, byte_at}
use bsondb.Bson.Wire.{doc_min_len, max_document_size}
use bsondb.Bson.Reader
use bsondb.Bson.Reader.{Reader}
use bsondb.Bson.Validate.{validate_document}
use bsondb.Storage.Format.{record_live, record_tombstone}

-- What a round finds: `stop` is `break`, `entry` is a record with that status and document length.
pub data Found : Type 0 where
  stop : Found
  entry : ℕ → ℕ → Found

-- `bson_validate_document(...) != BSON_OK` breaks.
unfoldable pub if_valid : ℕ → ℕ → Result (Unit {0}) → Result Found
if_valid status doc_len (ok _) = ok (entry status doc_len)
if_valid status doc_len (err s) = ok stop
if_valid status doc_len fault = fault
if_valid status doc_len stuck = stuck

-- The tests on the length, and the validation of the document. A read that fails breaks.
unfoldable pub if_length : List ℕ → ℕ → ℕ → Result (ℤ × Reader) → Result Found
if_length bytes at status (ok (doc_len, _)) =
    if ltb_ℤ doc_len (pos doc_min_len) || ltb max_document_size (to_size doc_len)
    then ok stop
    else if ltb (length bytes) (at + (1 + to_size doc_len))
    then ok stop
    else if_valid status (to_size doc_len)
        (validate_document (drop (at + 1) bytes) (to_size doc_len))
if_length bytes at status (err s) = ok stop
if_length bytes at status fault = fault
if_length bytes at status stuck = stuck

-- One round at `at`, which is below the capacity.
unfoldable pub recover_record : List ℕ → ℕ → Result Found
recover_record bytes at = do
  status ← byte_at bytes at
  if status == record_live || status == record_tombstone
      then (if ltb (length bytes) (at + 1 + doc_min_len)
          then ok stop
          else if_length bytes at status
              (Reader.read_i32 (Reader.init (drop (at + 1) bytes) (length bytes - (at + 1)))))
      else ok stop

-- `pos`, `live` and `total` of the scan.
pub record Counts : Type 0 where
  pub end : ℕ
  pub live : ℕ
  pub total : ℕ

unfoldable pub counted : Counts → ℕ → ℕ → Counts
counted c status doc_len = record {
  end = c.end + (1 + doc_len);
  live = if status == record_live then c.live + 1 else c.live;
  total = c.total + 1;
}

-- The loop. A record takes six bytes at least, so as many rounds as there are bytes are enough.
unfoldable pub recover_loop : ℕ → List ℕ → Counts → Result Counts
recover_loop zero bytes c = stuck
recover_loop (suc rounds) bytes c = elim (ltb c.end (length bytes)) [
  | false ↦ ok c
  | true ↦ recover_record bytes c.end >>= elim [
    | stop ↦ ok c
    | entry status doc_len ↦ recover_loop rounds bytes (counted c status doc_len)
  ]
]
