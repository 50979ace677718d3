-- ===== src/Btree/Header.antt =====
-- The header of an index file, and what `bson_btree_open` and the getters read of it.
use bsondb.Common.{
  ℕ, ◌^◌, ◌≤◌, ◌<◌, ◌≡◌, refl, ap, ◌∙◌, List, [], ◌∷◌, Bool, true, false, not, bit_and, ltb, ◌==◌,
  length, slice, to_le, arith,
}
use bsondb.Bson.Result.{ok}
use bsondb.Mmap.{MmapFile, Os, mmap_size}
use bsondb.Mmap.Exec.{peek, read_u16}
use bsondb.Storage.Access.{peek-slice}
use bsondb.Storage.Header.{same_bytes}
use bsondb.Btree.Layout.{btree_magic, flag_unique, flag_descending, btree_unique, btree_descending}
use bsondb.Btree.Leaf.{read_u16-field, peek_u8-field}
use bsondb.Btree.Lifecycle.{flags_of, Memory, IsAmple, read_header}

flags_small : (unique descending : Bool) → flags_of unique descending < 2 ^ 16
flags_small false false = omega arith
flags_small false true = omega arith
flags_small true false = omega arith
flags_small true true = omega arith

unique_flag :
    (unique descending : Bool)
    → not (bit_and (flags_of unique descending) flag_unique == 0) ≡ unique
unique_flag false false = refl
unique_flag false true = refl
unique_flag true false = refl
unique_flag true true = refl

descending_flag :
    (unique descending : Bool)
    → not (bit_and (flags_of unique descending) flag_descending == 0) ≡ descending
descending_flag false false = refl
descending_flag false true = refl
descending_flag true false = refl
descending_flag true true = refl

-- The bytes begin with the header of an index on `path`.
pub record HoldsHeader (bytes path : List ℕ) (unique descending : Bool) : Type 0 where
  pub fits : 256 ≤ length bytes
  pub short : length path < 200
  pub magic_field : slice bytes 0 4 ≡ btree_magic
  pub version_field : slice bytes 4 2 ≡ to_le 2 1
  pub flags_field : slice bytes 6 2 ≡ to_le 2 (flags_of unique descending)
  pub path_len_field : slice bytes 41 1 ≡ length path ∷ []
  pub path_field : slice bytes 56 (length path) ≡ path

module _ (file : MmapFile) (mapped : file.mapped ≡ true) (path : List ℕ) (unique descending : Bool)
    (h : HoldsHeader file.bytes path unique descending) where
  flags_there : read_u16 6 file ≡ (ok (flags_of unique descending), file)
  flags_there =
      read_u16-field file mapped 6 (flags_of unique descending) (omega (arith, h.fits))
        h.flags_field (flags_small unique descending)

  pub btree_unique-HoldsHeader : btree_unique file ≡ (ok unique, file)
  unfolding btree_unique
  btree_unique-HoldsHeader =
      rw flags_there (ap (λ (b : Bool). (ok b, file)) (unique_flag unique descending))

  pub btree_descending-HoldsHeader : btree_descending file ≡ (ok descending, file)
  unfolding btree_descending
  btree_descending-HoldsHeader =
      rw flags_there (ap (λ (b : Bool). (ok b, file)) (descending_flag unique descending))

  magic_there : peek 0 4 file ≡ (ok btree_magic, file)
  magic_there =
      peek-slice file mapped 0 4 (omega (arith, h.fits)) ∙ ap (λ t. (ok t, file)) h.magic_field

  path_there : peek 56 (length path) file ≡ (ok path, file)
  path_there =
      peek-slice file mapped 56 (length path) (omega (arith, h.fits, h.short))
      ∙ ap (λ t. (ok t, file)) h.path_field

  large : ltb (mmap_size file) 256 ≡ false
  unfolding mmap_size
  large = ground (arith, mapped, h.fits)

  -- `bson_btree_open` reads back the path.
  pub read_header-HoldsHeader :
      (os : Os) (memory : Memory) → IsAmple memory → read_header os memory file ≡ (ok path, file)
  unfolding read_header same_bytes
  read_header-HoldsHeader os memory ample =
      let version =
        read_u16-field file mapped 4 1 (omega (arith, h.fits)) h.version_field (omega arith) in
      let path_len = peek_u8-field file mapped 41 (length path) h.path_len_field in
      rw (large, magic_there, version, ample.handle, path_len, ample.path, path_there)
