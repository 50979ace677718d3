-- ===== src/Storage/Handle/Closing.antt =====
-- The end of a `CollectionHandle`: the file is marked clean and flushed.
use bsondb.Common.{
  ℕ, ◌+◌, ◌≤◌, ◌≡◌, refl, sym, not, ◌==◌, true, false, from_le-to_le, ap, ◌∙◌, ◌⊎◌, inl, inr, arith,
  List, Bool-cases, if◌then◌else◌, none, some, length, slice, to_le, from_le, length-to_le,
}
use bsondb.Common.Bits.{bit_and_le, bit_and-even, bit_and-one}
use bsondb.Common.Patch.{slice-patch_self, length-patch, drop-patch_after}
use bsondb.Bson.Result.{ok, err, io, read_only_violation}
use bsondb.Mmap.{MmapFile, Os, Outcome, mmap_flush, is_read_write}
use bsondb.Mmap.Exec.{◌>>=◌, ◌>>◌, read_u16, write_u16}
use bsondb.Storage.Format.{clear_dirty, is_dirty}
use bsondb.Storage.Image.{Rec, Represents}
use bsondb.Storage.Access.{patched, peek-slice, poke-patch}
use bsondb.Storage.Counters.{slice-patch_after}
use bsondb.Storage.Header.{storage_mark_clean, flush}
use bsondb.Storage.Handle.{
  Reply, returned, raised, os_error, Handle, close, close_after, storage_error_to_python,
}

-- The flags of the header.
abbrev pub flags_of : MmapFile → ℕ
flags_of file = from_le (slice file.bytes 6 2)

-- What `bson_storage_mark_clean` leaves has the same records and is not DIRTY. Where the system has
-- written it back the handle is closed, and otherwise it stays open on it.
abbrev pub Closed : Os → MmapFile → List Rec → Reply (Unit {0}) × Handle → Type 0
Closed os file recs r =
    (clean : MmapFile) × ((storage_mark_clean os file).1 ≡ clean)
    × Represents clean recs
    × (is_dirty (flags_of clean) ≡ false)
    × (((os.msync clean.bytes ≡ true) × (r ≡ (returned tt, none)))
        ⊎ ((os.msync clean.bytes ≡ false) × (r ≡ (raised os_error, some clean))))

module _ (os : Os) (file : MmapFile) (recs : List Rec) (h : Represents file recs) where
  flags : ℕ
  flags = from_le (slice file.bytes 6 2)

  abbrev clean : MmapFile
  clean = patched file 6 (to_le 2 (clear_dirty flags))

  before : 6 + length (to_le 2 (clear_dirty flags)) ≤ 8
  before = omega (arith, length-to_le 2 (clear_dirty flags))

  inside : 6 + length (to_le 2 (clear_dirty flags)) ≤ length file.bytes
  inside = omega (arith, before, h.header)

  same : (at : ℕ) → 8 ≤ at → slice clean.bytes at 8 ≡ slice file.bytes at 8
  same at behind =
      slice-patch_after (to_le 2 (clear_dirty flags)) 6 at 8 file.bytes
        (omega (arith, before, behind)) inside

  length-clean : length clean.bytes ≡ length file.bytes
  length-clean = length-patch (to_le 2 (clear_dirty flags)) 6 file.bytes inside

  clean-Represents : Represents clean recs
  clean-Represents = record {
    mapped = h.mapped;
    writable = h.writable;
    counters = record {
      data_end_field = same 16 (omega arith) ∙ h.counters.data_end_field;
      live_field = same 24 (omega arith) ∙ h.counters.live_field;
      total_field = same 32 (omega arith) ∙ h.counters.total_field;
    };
    slack = h.slack;
    body =
        drop-patch_after (to_le 2 (clear_dirty flags)) 6 64 file.bytes (omega (arith, before))
          inside
        ∙ h.body;
    header = omega (arith, length-clean, h.header);
    valid = h.valid;
    small = omega (arith, length-clean, h.small);
  }

  flush_lem : flush os clean ≡ (if os.msync clean.bytes then ok tt else err io, clean)
  unfolding mmap_flush
  flush_lem =
      ap
        (λ b. (
          if is_read_write b
              then (if file.mapped then (if os.msync clean.bytes then ok tt else err io) else ok tt)
              else err read_only_violation,
          clean,
        ))
        h.writable
      ∙ ap (λ b. (if b then (if os.msync clean.bytes then ok tt else err io) else ok tt, clean))
          h.mapped

  marked : Outcome (Unit {0})
  marked = (do raw ← read_u16 6; write_u16 6 (clear_dirty raw); flush os) file

  marked_lem : marked ≡ (if os.msync clean.bytes then ok tt else err io, clean)
  unfolding marked read_u16 write_u16 flags
  marked_lem =
      rw
        (
          peek-slice file h.mapped 6 2 (omega (arith, h.header)),
          poke-patch file h.mapped 6 (to_le 2 (clear_dirty (from_le (slice file.bytes 6 2))))
              h.writable inside,
        )
        flush_lem

  mark_clean_lem :
      storage_mark_clean os file ≡ (if os.msync clean.bytes then ok tt else err io, clean)
  unfolding storage_mark_clean marked
  mark_clean_lem = ap (λ b. if b then marked else (ok tt, file)) h.mapped ∙ marked_lem

  clean_flags : flags_of clean ≡ clear_dirty flags
  clean_flags =
      ap (λ n. from_le (slice clean.bytes 6 n)) (sym (length-to_le 2 (clear_dirty flags)))
      ∙ ap from_le
          (slice-patch_self (to_le 2 (clear_dirty flags)) 6 file.bytes (omega (arith, h.header)))
      ∙ from_le-to_le 2 (clear_dirty flags) (omega (arith, bit_and_le flags 0xfffe))

  not_dirty : is_dirty (flags_of clean) ≡ false
  not_dirty =
      ap is_dirty clean_flags
      ∙ ap (λ (n : ℕ). not (n == 0))
          (bit_and-one (clear_dirty flags) (bit_and-even flags 0xfffe refl))

  pub close_lem : Closed os file recs (close os (some file))
  unfolding close close_after storage_error_to_python
  close_lem = (
    clean,
    ap (λ r. r.1) mark_clean_lem,
    clean-Represents,
    not_dirty,
    elim (Bool-cases (os.msync clean.bytes)) [
      | inl synced ↦ inl (
        synced,
        ap close_after mark_clean_lem
            ∙ ap (λ b. close_after (if b then ok tt else err io, clean)) synced,
      )
      | inr failed ↦ inr (
        failed,
        ap close_after mark_clean_lem
            ∙ ap (λ b. close_after (if b then ok tt else err io, clean)) failed,
      )
    ],
  )
