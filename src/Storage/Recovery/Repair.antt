-- ===== src/Storage/Recovery/Repair.antt =====
-- All of `bson_storage_recover`: the scan, then the counters that it writes.
use bsondb.Common.{
  ℕ, suc, ◌+◌, ◌^◌, ◌≤◌, ◌<◌, ◌≡◌, refl, ap, ◌∙◌, List, [], ◌∷◌, ◌++◌, true, arith, if◌then◌else◌,
  length, drop, All, to_le, length-to_le, length-append, length-drop,
}
use bsondb.Common.Patch.{patch, slice-patch_before}
use bsondb.Bson.Result.{ok}
use bsondb.Mmap.{MmapFile, read_write, Outcome}
use bsondb.Mmap.Exec.{Exec, continue, ◌>>◌, write_u64}
use bsondb.Storage.Image.{Rec, IsRec, image, live_count, HasCounters, Represents}
use bsondb.Storage.Access.{poke-patch}
use bsondb.Storage.Counters.{field_written, length-set_field, body-set_field}
use bsondb.Storage.Append.{end_of, length-image}
use bsondb.Storage.Scan.{Counts, recover_loop}
use bsondb.Storage.Header.{storage_recover, visible}
use bsondb.Storage.Recovery.{IsSound, IsUnused, counts_eq, recover_loop_lem}

-- A mapped file with the records `recs` behind its header, whose counters may be anything.
pub record IsUncounted (file : MmapFile) (recs : List Rec) : Type 0 where
  pub mapped : file.mapped ≡ true
  pub writable : file.mode ≡ read_write
  pub slack : List ℕ
  pub body : drop 64 file.bytes ≡ image recs ++ slack
  pub unused : IsUnused slack
  pub header : 64 ≤ length file.bytes
  pub sound : All IsSound recs
  pub small : length file.bytes < 2 ^ 62

abbrev pub Recovered : List Rec → Outcome (Unit {0}) → Type 0
Recovered recs r = (file' : MmapFile) × (r ≡ (ok tt, file')) × Represents file' recs

valid_recs : (recs : List Rec) → All IsSound recs → All IsRec recs
valid_recs [] _ = tt
valid_recs (r ∷ recs) (s, rest) = (s.0, valid_recs recs rest)

module _ (file : MmapFile) (recs : List Rec) (h : IsUncounted file recs) where
  abbrev b1 : List ℕ
  b1 = patch (to_le 8 (end_of recs)) 16 file.bytes

  abbrev b2 : List ℕ
  b2 = patch (to_le 8 (live_count recs)) 24 b1

  abbrev b3 : List ℕ
  b3 = patch (to_le 8 (length recs)) 32 b2

  abbrev found : Counts
  found = record { end = end_of recs; live = live_count recs; total = length recs }

  length-b1 : length b1 ≡ length file.bytes
  length-b1 = length-set_field 16 (end_of recs) file.bytes (omega (arith, h.header))

  length-b2 : length b2 ≡ length file.bytes
  length-b2 =
      length-set_field 24 (live_count recs) b1 (omega (arith, length-b1, h.header)) ∙ length-b1

  length-b3 : length b3 ≡ length file.bytes
  length-b3 = length-set_field 32 (length recs) b2 (omega (arith, length-b2, h.header)) ∙ length-b2

  few : length recs < suc (length file.bytes)
  few = omega (
    arith,
    length-image recs,
    ap (λ t. length t) h.body,
    length-append (image recs) h.slack,
    length-drop 64 file.bytes,
  )

  start : 64 ≡ end_of []
  unfolding end_of
  start = refl

  scan :
      recover_loop (suc (length file.bytes)) file.bytes (record { end = 64; live = 0; total = 0 })
      ≡ ok found
  scan =
      recover_loop_lem file.bytes h.slack h.small h.unused recs [] recs
        (record { end = 64; live = 0; total = 0 }) (suc (length file.bytes)) start refl few h.sound
        h.body h.header
      ∙ ap ok
          (counts_eq file.bytes h.slack h.small h.unused _ found refl (omega arith) (omega arith))

  write_counts : Counts → Exec (Unit {0})
  write_counts counts = do
    write_u64 16 counts.end
    write_u64 24 counts.live
    write_u64 32 counts.total

  run : List ℕ → Outcome (Unit {0})
  run bytes =
      continue (recover_loop (suc (length bytes)) bytes (record { end = 64; live = 0; total = 0 }))
        write_counts file

  run_lem : storage_recover file ≡ run (visible file)
  unfolding storage_recover run write_counts
  run_lem = refl

  written : write_counts found file ≡ (ok tt, record file { bytes = b3 })
  unfolding write_counts write_u64
  written = rw (
    poke-patch file h.mapped 16 (to_le 8 (end_of recs)) h.writable
        (omega (arith, h.header, length-to_le 8 (end_of recs))),
    poke-patch (record file { bytes = b1 }) h.mapped 24 (to_le 8 (live_count recs)) h.writable
        (omega (arith, h.header, length-b1, length-to_le 8 (live_count recs))),
    poke-patch (record file { bytes = b2 }) h.mapped 32 (to_le 8 (length recs)) h.writable
        (omega (arith, h.header, length-b2, length-to_le 8 (length recs))),
  )

  counters : HasCounters b3 (64 + length (image recs)) (live_count recs) (length recs)
  unfolding end_of
  counters = record {
    data_end_field =
        slice-patch_before (to_le 8 (length recs)) 32 16 8 b2 (omega arith)
        ∙ slice-patch_before (to_le 8 (live_count recs)) 24 16 8 b1 (omega arith)
        ∙ field_written 16 (end_of recs) file.bytes (omega (arith, h.header));
    live_field =
        slice-patch_before (to_le 8 (length recs)) 32 24 8 b2 (omega arith)
        ∙ field_written 24 (live_count recs) b1 (omega (arith, length-b1, h.header));
    total_field = field_written 32 (length recs) b2 (omega (arith, length-b2, h.header));
  }

  repaired : Represents (record file { bytes = b3 }) recs
  repaired = record {
    mapped = h.mapped;
    writable = h.writable;
    counters = counters;
    slack = h.slack;
    body =
        body-set_field 32 (length recs) b2 (omega arith) (omega (arith, length-b2, h.header))
        ∙ body-set_field 24 (live_count recs) b1 (omega arith) (omega (arith, length-b1, h.header))
        ∙ body-set_field 16 (end_of recs) file.bytes (omega arith) h.header
        ∙ h.body;
    header = omega (arith, length-b3, h.header);
    valid = valid_recs recs h.sound;
    small = omega (arith, length-b3, h.small);
  }

  -- On a file of less than 2 ^ 62 bytes, mapped for writing, that has sound records behind its header,
  -- and behind them no byte or a byte that is no record's status: whatever the counters are,
  -- `bson_storage_recover` returns, and leaves a file that stands for exactly those records.
  pub storage_recover_lem : Recovered recs (storage_recover file)
  unfolding run
  storage_recover_lem = (
    record file { bytes = b3 },
    run_lem
        ∙ ap (λ b. run (if b then file.bytes else [])) h.mapped
        ∙ ap (λ r. continue r write_counts file) scan
        ∙ written,
    repaired,
  )
