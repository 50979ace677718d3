-- ===== src/Btree/Layout.antt =====
-- The layout of an index file (include/custom_bson/btree.h) and the accessors of btree.c's pages.
use bsondb.Common.{ℕ, ◌+◌, ◌*◌, ◌%◌, List, [], ◌∷◌, ◌++◌, Bool, not, ◌==◌, bit_and, to_le}
use bsondb.Bson.Wire.{size_mod}
use bsondb.Mmap.Exec.{Exec, pure, ◌>>=◌, ◌>>◌, peek, poke, read_u16, read_u64, write_u64}
use bsondb.Storage.Records.{peek_u8}

-- "CBI1"
abbrev pub btree_magic : List ℕ
btree_magic = 0x43 ∷ 0x42 ∷ 0x49 ∷ 0x31 ∷ []

abbrev pub btree_version : ℕ
btree_version = 1

abbrev pub btree_header_len : ℕ
btree_header_len = 256

abbrev pub page_size : ℕ
page_size = 4096

abbrev pub field_path_cap : ℕ
field_path_cap = 200

abbrev pub flag_unique : ℕ
flag_unique = 2

abbrev pub flag_descending : ℕ
flag_descending = 4

-- The offsets of the header's fields.
abbrev pub off_root_page_no : ℕ
off_root_page_no = 16

abbrev pub off_page_count : ℕ
off_page_count = 24

abbrev pub off_free_page_head : ℕ
off_free_page_head = 32

abbrev pub off_key_type_tag : ℕ
off_key_type_tag = 40

abbrev pub off_field_path_len : ℕ
off_field_path_len = 41

abbrev pub off_field_path : ℕ
off_field_path = 56

abbrev pub page_type_leaf : ℕ
page_type_leaf = 1

abbrev pub page_type_internal : ℕ
page_type_internal = 2

abbrev pub leaf_entry_len : ℕ
leaf_entry_len = 22

abbrev pub leaf_max_entries : ℕ
leaf_max_entries = 180

abbrev pub internal_entry_len : ℕ
internal_entry_len = 21

abbrev pub internal_max_keys : ℕ
internal_max_keys = 190

-- `page_ptr`, as an offset into the mapping.
unfoldable pub page_off : ℕ → ℕ
page_off page_no = page_no * page_size % size_mod

-- `leaf_entry_ptr` and `internal_entry_ptr`
abbrev pub leaf_entry_off : ℕ → ℕ → ℕ
leaf_entry_off page i = page_off page + 16 + i * leaf_entry_len

abbrev pub internal_entry_off : ℕ → ℕ → ℕ
internal_entry_off page i = page_off page + 16 + i * internal_entry_len

-- The fields of a page's header.
unfoldable pub page_type : ℕ → Exec ℕ
page_type page = peek_u8 (page_off page)

unfoldable pub page_entries : ℕ → Exec ℕ
page_entries page = read_u16 (page_off page + 2)

unfoldable pub page_link : ℕ → Exec ℕ
page_link page = read_u64 (page_off page + 8)

-- `write_leaf_entry` into a page, and the bytes that it writes.
abbrev pub leaf_entry : List ℕ → ℕ → ℕ → List ℕ
leaf_entry key offset flags = key ++ (to_le 8 offset ++ (flags ∷ []))

unfoldable pub write_leaf_entry : ℕ → List ℕ → ℕ → ℕ → Exec (Unit {0})
write_leaf_entry slot key offset flags = do
  poke slot key
  write_u64 (slot + 13) offset
  poke (slot + 21) (flags ∷ [])

-- An internal entry: `memcpy` of the key, then the child.
abbrev pub internal_entry : List ℕ → ℕ → List ℕ
internal_entry key child = key ++ to_le 8 child

unfoldable pub write_internal_entry : ℕ → List ℕ → ℕ → Exec (Unit {0})
write_internal_entry slot key child = do poke slot key; write_u64 (slot + 13) child

-- `read_leaf_offset` and `read_leaf_flags`
unfoldable pub read_leaf_offset : ℕ → Exec ℕ
read_leaf_offset slot = read_u64 (slot + 13)

unfoldable pub read_leaf_flags : ℕ → Exec ℕ
read_leaf_flags slot = peek_u8 (slot + 21)

-- `(flags & LEAF_ENTRY_FLAG_DEAD) == 0`
abbrev pub is_live : ℕ → Bool
is_live flags = bit_and flags 1 == 0

-- `memmove(dst, src, n)` inside the mapping.
unfoldable pub memmove : ℕ → ℕ → ℕ → Exec (Unit {0})
memmove dst src n = do raw ← peek src n; poke dst raw

-- `current_root`
unfoldable pub current_root : Exec ℕ
current_root = read_u64 off_root_page_no

-- `bson_btree_unique`, `bson_btree_descending`, `bson_btree_key_type_tag`
unfoldable pub btree_unique : Exec Bool
btree_unique = do flags ← read_u16 6; pure (not (bit_and flags flag_unique == 0))

unfoldable pub btree_descending : Exec Bool
btree_descending = do flags ← read_u16 6; pure (not (bit_and flags flag_descending == 0))

unfoldable pub btree_key_type_tag : Exec ℕ
btree_key_type_tag = peek_u8 off_key_type_tag
