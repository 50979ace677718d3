-- ===== src/Storage/Append.antt =====
-- `bson_storage_append` on the records that the file stands for.
pub mod Outcome
use bsondb.Common.{
  ℕ, ◌+◌, ◌-◌, ◌*◌, ◌/◌, ◌%◌, ◌^◌, ◌≤◌, ◌<◌, ◌≡◌, refl, sym, ap, ◌∙◌, ◌⊎◌, inl, inr, List, [], ◌∷◌,
  ◌++◌, Bool, true, false, arith, ltb, ◌==◌, if◌then◌else◌, length, take, drop, slice, All,
  All-append, to_le, length-to_le, append_assoc, append-nil, length-append, length-drop, ltb→lt,
  le→ltb, lt→ltb,
}
use bsondb.Common.Patch.{patch, length-patch}
use bsondb.Bson.Result.{Result, ok, err}
use bsondb.Bson.Wire.{size_mod}
use bsondb.Mmap.{MmapFile, Mode, read_write, Os, mmap_size}
use bsondb.Mmap.Exec.{Exec, pure, ◌>>=◌, ◌>>◌, continue, poke, read_u64, write_u64}
use bsondb.Storage.Format.{record_live, record_tombstone, storage_header_len}
use bsondb.Storage.Image.{Rec, IsDoc, IsRec, image, live_count, HasCounters, Represents}
use bsondb.Storage.Access.{patched, read_u64-field, poke-patch}
use bsondb.Storage.Counters.{
  set_data_end, set_live, set_total, write_behind-HasCounters, length-set_field, body-set_field,
  body-patch,
}
use bsondb.Storage.Header.{storage_data_end}
use bsondb.Storage.Records.{storage_append, make_room, write_record}

abbrev pub live_record : List ℕ → Rec
live_record doc = record { status = record_live; doc = doc }

pub image-append : (rs : List Rec) (r : Rec) → image (rs ++ r ∷ []) ≡ image rs ++ (r.status ∷ r.doc)
image-append [] r = append-nil (r.status ∷ r.doc)
image-append (q ∷ rs) r =
    ap (λ t. (q.status ∷ q.doc) ++ t) (image-append rs r)
    ∙ sym (append_assoc (q.status ∷ q.doc) (image rs) (r.status ∷ r.doc))

pub live_count-append :
    (rs : List Rec) (doc : List ℕ) → live_count (rs ++ live_record doc ∷ []) ≡ live_count rs + 1
live_count-append [] doc = refl
live_count-append (q ∷ rs) doc = ground (arith, live_count-append rs doc)

pub live_count-le : (rs : List Rec) → live_count rs ≤ length rs
live_count-le [] = omega arith
live_count-le (r ∷ rs) = ground (arith, live_count-le rs)

pub length-image : (rs : List Rec) → length rs ≤ length (image rs)
length-image [] = omega arith
length-image (r ∷ rs) = omega (arith, length-append r.doc (image rs), length-image rs)

-- Where a represented file ends.
unfoldable pub end_of : List Rec → ℕ
end_of recs = 64 + length (image recs)

module _ {file : MmapFile} {recs : List Rec} (h : Represents file recs) where
  pub length_bytes : length file.bytes ≡ end_of recs + length h.slack
  unfolding end_of
  length_bytes = omega (
    arith,
    length-drop 64 file.bytes,
    ap (λ t. length t) h.body,
    length-append (image recs) h.slack,
    h.header,
  )

  pub storage_data_end-Represents : storage_data_end file ≡ (ok (end_of recs), file)
  unfolding storage_data_end end_of
  storage_data_end-Represents =
      ap (λ b. if b then read_u64 16 file else pure storage_header_len file) h.mapped
      ∙ read_u64-field file h.mapped 16 (end_of recs) (omega (arith, h.header))
          h.counters.data_end_field (omega (arith, length_bytes, h.small))

  -- The file after `write_record`.
  module _ (doc : List ℕ) where
    abbrev b1 : List ℕ
    b1 = patch (record_live ∷ []) (end_of recs) file.bytes

    abbrev b2 : List ℕ
    b2 = patch doc (end_of recs + 1) b1

    abbrev b3 : List ℕ
    b3 = patch (to_le 8 ((end_of recs + 1 + length doc) % size_mod)) 16 b2

    abbrev b4 : List ℕ
    b4 = patch (to_le 8 ((live_count recs + 1) % size_mod)) 24 b3

    abbrev pub appended : MmapFile
    appended = record file { bytes = patch (to_le 8 ((length recs + 1) % size_mod)) 32 b4 }

    module _ (room : end_of recs + 1 + length doc ≤ length file.bytes) where
      count-small : length recs < 2 ^ 62
      unfolding end_of
      count-small = omega (arith, length_bytes, h.small, length-image recs)

      abbrev with_bytes : List ℕ → MmapFile
      with_bytes bytes = record file { bytes = bytes }

      length-b1 : length b1 ≡ length file.bytes
      length-b1 = length-patch (record_live ∷ []) (end_of recs) file.bytes (omega (arith, room))

      length-b2 : length b2 ≡ length file.bytes
      length-b2 = length-patch doc (end_of recs + 1) b1 (omega (arith, room, length-b1)) ∙ length-b1

      length-b3 : length b3 ≡ length file.bytes
      length-b3 = length-set_field 16 _ b2 (omega (arith, length-b2, h.header)) ∙ length-b2

      length-b4 : length b4 ≡ length file.bytes
      length-b4 = length-set_field 24 _ b3 (omega (arith, length-b3, h.header)) ∙ length-b3

      counters-b3 :
          HasCounters b3 ((end_of recs + 1 + length doc) % size_mod) (live_count recs) (length recs)
      unfolding end_of
      counters-b3 =
          set_data_end
            (write_behind-HasCounters
              (write_behind-HasCounters h.counters h.header (record_live ∷ []) (end_of recs)
                (omega arith))
              (omega (arith, length-b1, h.header)) doc (end_of recs + 1) (omega arith))
            (omega (arith, length-b2, h.header)) _

      counters-b4 :
          HasCounters b4
            ((end_of recs + 1 + length doc) % size_mod)
            ((live_count recs + 1) % size_mod)
            (length recs)
      counters-b4 = set_live counters-b3 (omega (arith, length-b3, h.header)) _

      write_record-Represents : write_record (end_of recs) doc file ≡ (ok (end_of recs), appended)
      unfolding write_record write_u64
      write_record-Represents = rw (
        poke-patch file h.mapped (end_of recs) (record_live ∷ []) h.writable (omega (arith, room)),
        poke-patch (with_bytes b1) h.mapped (end_of recs + 1) doc h.writable
            (omega (arith, room, length-b1)),
        poke-patch (with_bytes b2) h.mapped 16 (to_le 8 ((end_of recs + 1 + length doc) % size_mod))
            h.writable
            (omega (
              arith,
              length-b2,
              h.header,
              length-to_le 8 ((end_of recs + 1 + length doc) % size_mod),
            )),
        read_u64-field (with_bytes b3) h.mapped 24 (live_count recs)
            (omega (arith, length-b3, h.header)) counters-b3.live_field
            (omega (arith, count-small, live_count-le recs)),
        poke-patch (with_bytes b3) h.mapped 24 (to_le 8 ((live_count recs + 1) % size_mod))
            h.writable
            (omega (arith, length-b3, h.header, length-to_le 8 ((live_count recs + 1) % size_mod))),
        read_u64-field (with_bytes b4) h.mapped 32 (length recs)
            (omega (arith, length-b4, h.header)) counters-b4.total_field
            (omega (arith, count-small)),
        poke-patch (with_bytes b4) h.mapped 32 (to_le 8 ((length recs + 1) % size_mod)) h.writable
            (omega (arith, length-b4, h.header, length-to_le 8 ((length recs + 1) % size_mod))),
      )

      length-appended : length appended.bytes ≡ length file.bytes
      length-appended = length-set_field 32 _ b4 (omega (arith, length-b4, h.header)) ∙ length-b4

      count_step :
          length (image (recs ++ live_record doc ∷ [])) ≡ length (image recs) + 1 + length doc
      count_step = omega (
        arith,
        ap (λ t. length t) (image-append recs (live_record doc)),
        length-append (image recs) (record_live ∷ doc),
      )

      data_end_step :
          (end_of recs + 1 + length doc) % size_mod
          ≡ 64 + length (image (recs ++ live_record doc ∷ []))
      unfolding end_of
      data_end_step = omega (arith, count_step, room, h.small)

      live_step : (live_count recs + 1) % size_mod ≡ live_count (recs ++ live_record doc ∷ [])
      live_step = omega (arith, live_count-append recs doc, count-small, live_count-le recs)

      total_step : (length recs + 1) % size_mod ≡ length (recs ++ live_record doc ∷ [])
      total_step = omega (arith, length-append recs (live_record doc ∷ []), count-small)

      counters-appended :
          HasCounters appended.bytes
            (64 + length (image (recs ++ live_record doc ∷ [])))
            (live_count (recs ++ live_record doc ∷ []))
            (length (recs ++ live_record doc ∷ []))
      counters-appended =
          rw⁻¹ (data_end_step, live_step, total_step)
            (set_total counters-b4 (omega (arith, length-b4, h.header))
              ((length recs + 1) % size_mod))

      body-b1 : drop 64 b1 ≡ image recs ++ (record_live ∷ drop 1 h.slack)
      unfolding end_of
      body-b1 =
          body-patch (record_live ∷ []) (end_of recs) file.bytes (image recs) h.slack refl
            (omega (arith, room)) h.body

      body-b2 :
          drop 64 b2
          ≡ (image recs ++ record_live ∷ []) ++ (doc ++ drop (length doc) (drop 1 h.slack))
      unfolding end_of
      body-b2 =
          body-patch doc (end_of recs + 1) b1 (image recs ++ record_live ∷ []) (drop 1 h.slack)
            (omega (arith, length-append (image recs) (record_live ∷ [])))
            (omega (arith, length-b1, room))
            (body-b1 ∙ sym (append_assoc (image recs) (record_live ∷ []) (drop 1 h.slack)))

      body-appended :
          drop 64 appended.bytes
          ≡ image (recs ++ live_record doc ∷ []) ++ drop (length doc) (drop 1 h.slack)
      body-appended =
          body-set_field 32 ((length recs + 1) % size_mod) b4 (omega arith)
            (omega (arith, length-b4, h.header))
          ∙ body-set_field 24 ((live_count recs + 1) % size_mod) b3 (omega arith)
              (omega (arith, length-b3, h.header))
          ∙ body-set_field 16 ((end_of recs + 1 + length doc) % size_mod) b2 (omega arith)
              (omega (arith, length-b2, h.header))
          ∙ body-b2
          ∙ append_assoc (image recs) (record_live ∷ []) (doc ++ drop (length doc) (drop 1 h.slack))
          ∙ sym (append_assoc (image recs) (record_live ∷ doc) (drop (length doc) (drop 1 h.slack)))
          ∙ ap (λ t. t ++ drop (length doc) (drop 1 h.slack))
              (sym (image-append recs (live_record doc)))

      appended-Represents : IsDoc doc → Represents appended (recs ++ live_record doc ∷ [])
      appended-Represents doc_ok = record {
        mapped = h.mapped;
        writable = h.writable;
        counters = counters-appended;
        slack = drop (length doc) (drop 1 h.slack);
        body = body-appended;
        header = omega (arith, length-appended, h.header);
        valid = All-append IsRec recs (live_record doc ∷ []) h.valid ((inl refl, doc_ok), tt);
        small = omega (arith, length-appended, h.small);
      }
