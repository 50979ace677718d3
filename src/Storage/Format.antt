-- ===== src/Storage/Format.antt =====
-- The constants of include/custom_bson/storage.h, and the flag tests of storage.c.
use bsondb.Common.{ℕ, List, [], ◌∷◌, Bool, ◌==◌, not, bit_and, bit_or}

-- "CBD1"
abbrev pub storage_magic : List ℕ
storage_magic = 0x43 ∷ 0x42 ∷ 0x44 ∷ 0x31 ∷ []

abbrev pub storage_version : ℕ
storage_version = 1

abbrev pub storage_header_len : ℕ
storage_header_len = 64

abbrev pub record_live : ℕ
record_live = 0x01

abbrev pub record_tombstone : ℕ
record_tombstone = 0x02

abbrev pub initial_capacity : ℕ
initial_capacity = 4096

abbrev pub page_size : ℕ
page_size = 4096

-- `flags & BSON_STORAGE_FLAG_DIRTY`, and the flags with the bit set and cleared.
abbrev pub is_dirty : ℕ → Bool
is_dirty flags = not (bit_and flags 1 == 0)

abbrev pub set_dirty : ℕ → ℕ
set_dirty flags = bit_or flags 1

abbrev pub clear_dirty : ℕ → ℕ
clear_dirty flags = bit_and flags 0xfffe
