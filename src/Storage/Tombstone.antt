-- ===== src/Storage/Tombstone.antt =====
-- `bson_storage_tombstone` at the offset of a record.
use bsondb.Common.{
  ℕ, ◌+◌, ◌-◌, ◌^◌, ◌≤◌, ◌<◌, ◌≡◌, refl, sym, ap, ◌∙◌, inr, List, [], ◌∷◌, ◌++◌, arith, length,
  drop, All, append_assoc, length-append, to_le, length-to_le, lt→ltb, lt→leb,
}
use bsondb.Common.Patch.{patch, length-patch}
use bsondb.Bson.Result.{ok}
use bsondb.Mmap.{MmapFile}
use bsondb.Mmap.Exec.{write_u64}
use bsondb.Storage.Format.{record_live, record_tombstone}
use bsondb.Storage.Image.{Rec, IsRec, image, live_count, HasCounters, Represents}
use bsondb.Storage.Access.{read_u64-field, poke-patch}
use bsondb.Storage.Counters.{
  set_live, write_behind-HasCounters, length-set_field, body-set_field, body-patch,
}
use bsondb.Storage.Append.{
  end_of, length_bytes, storage_data_end-Represents, live_count-le, length-image, live_record,
}
use bsondb.Storage.Lookup.{image_split, before_end, status_there}
use bsondb.Storage.Records.{storage_tombstone}

abbrev pub dead_record : List ℕ → Rec
dead_record doc = record { status = record_tombstone; doc = doc }

live_count_dead :
    (xs : List Rec) (doc : List ℕ) (ys : List Rec)
    → live_count (xs ++ live_record doc ∷ ys) ≡ live_count (xs ++ dead_record doc ∷ ys) + 1
live_count_dead [] doc ys = refl
live_count_dead (x ∷ xs) doc ys = ground (arith, live_count_dead xs doc ys)

swap-All :
    (P : Rec → Type 0) (xs : List Rec) (a b : Rec) (ys : List Rec)
    → (P a → P b)
    → All P (xs ++ a ∷ ys)
    → All P (xs ++ b ∷ ys)
swap-All P [] a b ys f (p, ps) = (f p, ps)
swap-All P (x ∷ xs) a b ys f (p, ps) = (p, swap-All P xs a b ys f ps)

module _ {file : MmapFile} (xs : List Rec) (doc : List ℕ) (ys : List Rec) where
  -- A record that is a tombstone stays one.
  pub storage_tombstone_dead :
      Represents file (xs ++ dead_record doc ∷ ys)
      → storage_tombstone (end_of xs) file ≡ (ok tt, file)
  unfolding storage_tombstone
  storage_tombstone_dead h = rw (
    storage_data_end-Represents h,
    lt→leb (end_of xs) (end_of (xs ++ dead_record doc ∷ ys))
        (omega (arith, before_end xs (dead_record doc) ys h)),
    status_there xs (dead_record doc) ys h,
  )

  module _ (h : Represents file (xs ++ live_record doc ∷ ys)) where
    abbrev before : List Rec
    before = xs ++ live_record doc ∷ ys

    abbrev after : List Rec
    after = xs ++ dead_record doc ∷ ys

    abbrev b1 : List ℕ
    b1 = patch (record_tombstone ∷ []) (end_of xs) file.bytes

    abbrev pub tombstoned : MmapFile
    tombstoned = record file { bytes = patch (to_le 8 (live_count before - 1)) 24 b1 }

    inside : end_of xs + 1 ≤ length file.bytes
    inside = omega (arith, before_end xs (live_record doc) ys h, length_bytes h)

    length-b1 : length b1 ≡ length file.bytes
    length-b1 = length-patch (record_tombstone ∷ []) (end_of xs) file.bytes inside

    counters-b1 : HasCounters b1 (64 + length (image before)) (live_count before) (length before)
    unfolding end_of
    counters-b1 =
        write_behind-HasCounters h.counters h.header (record_tombstone ∷ []) (end_of xs)
          (omega arith)

    live_small : live_count before < 2 ^ 64
    unfolding end_of
    live_small = omega (arith, length_bytes h, h.small, length-image before, live_count-le before)

    pub storage_tombstone_live : storage_tombstone (end_of xs) file ≡ (ok tt, tombstoned)
    unfolding storage_tombstone write_u64
    storage_tombstone_live = rw (
      storage_data_end-Represents h,
      lt→leb (end_of xs) (end_of before) (omega (arith, before_end xs (live_record doc) ys h)),
      status_there xs (live_record doc) ys h,
      poke-patch file h.mapped (end_of xs) (record_tombstone ∷ []) h.writable inside,
      read_u64-field (record file { bytes = b1 }) h.mapped 24 (live_count before)
          (omega (arith, length-b1, h.header)) counters-b1.live_field live_small,
      lt→ltb 0 (live_count before) (omega (arith, live_count_dead xs doc ys)),
      poke-patch (record file { bytes = b1 }) h.mapped 24 (to_le 8 (live_count before - 1))
          h.writable (omega (arith, length-b1, h.header, length-to_le 8 (live_count before - 1))),
    )

    image_step : length (image before) ≡ length (image after)
    image_step = omega (
      arith,
      ap (λ t. length t) (image_split xs (live_record doc) ys),
      ap (λ t. length t) (image_split xs (dead_record doc) ys),
      length-append (image xs) (record_live ∷ (doc ++ image ys)),
      length-append (image xs) (record_tombstone ∷ (doc ++ image ys)),
    )

    live_step : live_count before - 1 ≡ live_count after
    live_step = omega (arith, live_count_dead xs doc ys)

    total_step : length before ≡ length after
    total_step =
        omega
          (arith, length-append xs (live_record doc ∷ ys), length-append xs (dead_record doc ∷ ys))

    length-tombstoned : length tombstoned.bytes ≡ length file.bytes
    length-tombstoned =
        length-set_field 24 (live_count before - 1) b1 (omega (arith, length-b1, h.header))
        ∙ length-b1

    body-b1 : drop 64 b1 ≡ image xs ++ (record_tombstone ∷ ((doc ++ image ys) ++ h.slack))
    unfolding end_of
    body-b1 =
        body-patch (record_tombstone ∷ []) (end_of xs) file.bytes (image xs)
          (record_live ∷ ((doc ++ image ys) ++ h.slack)) refl (omega (arith, inside))
          (h.body
            ∙ ap (λ t. t ++ h.slack) (image_split xs (live_record doc) ys)
            ∙ append_assoc (image xs) (record_live ∷ (doc ++ image ys)) h.slack)

    body-tombstoned : drop 64 tombstoned.bytes ≡ image after ++ h.slack
    body-tombstoned =
        body-set_field 24 (live_count before - 1) b1 (omega arith)
          (omega (arith, length-b1, h.header))
        ∙ body-b1
        ∙ sym (append_assoc (image xs) (record_tombstone ∷ (doc ++ image ys)) h.slack)
        ∙ ap (λ t. t ++ h.slack) (sym (image_split xs (dead_record doc) ys))

    counters-tombstoned :
        HasCounters tombstoned.bytes (64 + length (image after)) (live_count after) (length after)
    counters-tombstoned =
        rw⁻¹ (image_step, live_step, total_step)
          (set_live counters-b1 (omega (arith, length-b1, h.header)) (live_count before - 1))

    pub tombstoned-Represents : Represents tombstoned after
    tombstoned-Represents = record {
      mapped = h.mapped;
      writable = h.writable;
      counters = counters-tombstoned;
      slack = h.slack;
      body = body-tombstoned;
      header = omega (arith, length-tombstoned, h.header);
      valid =
          swap-All IsRec xs (live_record doc) (dead_record doc) ys (λ p. (inr refl, p.1)) h.valid;
      small = omega (arith, length-tombstoned, h.small);
    }
