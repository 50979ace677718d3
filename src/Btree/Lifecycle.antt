-- ===== src/Btree/Lifecycle.antt =====
-- `bson_btree_create`, `bson_btree_open`, `bson_btree_close` and `bson_btree_flush`.
pub mod Written
pub mod Created
use bsondb.Common.{
  ℕ, ◌*◌, ◌≡◌, true, List, [], ◌∷◌, Bool, Option, none, some, ltb, leb, not, ◌==◌, if◌then◌else◌,
  bit_or, length, replicate,
}
use bsondb.Bson.Result.{
  Result, ok, err, fault, stuck, out_of_memory, index_unsupported, invalid_file_header,
}
use bsondb.Mmap.{MmapFile, read_write, Os, mmap_size, mmap_open}
use bsondb.Mmap.Exec.{
  Exec, raise, ◌>>=◌, ◌>>◌, peek, poke, read_u16, write_u16, write_u32, write_u64,
}
use bsondb.Storage.Header.{flush, same_bytes}
use bsondb.Storage.Records.{peek_u8}
use bsondb.Btree.Layout.{
  btree_magic, btree_version, btree_header_len, page_size, field_path_cap, flag_unique,
  flag_descending, off_root_page_no, off_page_count, off_free_page_head, off_key_type_tag,
  off_field_path_len, off_field_path, page_type_leaf,
}
use bsondb.Btree.Pages.{allocate_page}
use bsondb.Btree.Insert.{set_type, set_entries, set_link}

-- `struct bson_btree`; `field_path` is NULL where `strdup` failed, which nothing tests.
pub record Btree : Type 0 where
  pub file : MmapFile
  pub field_path : Option (List ℕ)

-- What `malloc` and `strdup` have room for.
pub record Memory : Type 0 where
  pub handle : Bool
  pub path : Bool

-- Both succeed.
pub record IsAmple (memory : Memory) : Type 0 where
  pub handle : memory.handle ≡ true
  pub path : memory.path ≡ true

abbrev pub flags_of : Bool → Bool → ℕ
flags_of unique descending =
    bit_or (if unique then flag_unique else 0) (if descending then flag_descending else 0)

-- `memset` of the whole file, then the header's fields.
unfoldable pub write_header : List ℕ → ℕ → Bool → Bool → Exec (Unit {0})
write_header field_path key_type_tag unique descending file =
    (do
      poke 0 (replicate (mmap_size file) 0)
      poke 0 btree_magic
      write_u16 4 btree_version
      write_u16 6 (flags_of unique descending)
      write_u32 8 btree_header_len
      write_u32 12 page_size
      write_u64 off_root_page_no 0
      write_u64 off_page_count 0
      write_u64 off_free_page_head 0
      poke off_key_type_tag (key_type_tag ∷ [])
      poke off_field_path_len (length field_path ∷ [])
      poke off_field_path field_path)
      file

-- The status of a call that is not looked at.
abbrev ignored : Result (Unit {0}) × MmapFile → Result (Unit {0}) × MmapFile
ignored (err s, file) = (ok tt, file)
ignored (ok a, file) = (ok a, file)
ignored (fault, file) = (fault, file)
ignored (stuck, file) = (stuck, file)

abbrev pub ignore : Exec (Unit {0}) → Exec (Unit {0})
ignore m file = ignored (m file)

module _ (os : Os) where
  -- The empty root leaf.
  unfoldable pub write_root : Exec (Unit {0})
  write_root = do
    root ← allocate_page os
    set_type root page_type_leaf
    set_entries root 0
    set_link root 0
    write_u64 off_root_page_no root

  unfoldable pub create_in : List ℕ → ℕ → Bool → Bool → Exec (Unit {0})
  create_in field_path key_type_tag unique descending = do
    write_header field_path key_type_tag unique descending
    write_root
    ignore (flush os)

  abbrev created : Option (List ℕ) → Result (Unit {0}) × MmapFile → Result Btree
  created field_path (ok _, file) = ok (record { file = file; field_path = field_path })
  created field_path (err s, file) = err s
  created field_path (fault, file) = fault
  created field_path (stuck, file) = stuck

  abbrev create_found : Memory → List ℕ → ℕ → Bool → Bool → Result MmapFile → Result Btree
  create_found memory field_path tag unique descending (ok file) =
      if memory.handle
      then created (if memory.path then some field_path else none)
          (create_in field_path tag unique descending file)
      else err out_of_memory
  create_found memory field_path tag unique descending (err s) = err s
  create_found memory field_path tag unique descending fault = fault
  create_found memory field_path tag unique descending stuck = stuck

  -- `bson_btree_create`; `field_path` is the bytes before the NUL.
  unfoldable pub btree_create : Memory → List ℕ → ℕ → Bool → Bool → Result Btree
  btree_create memory field_path key_type_tag unique descending =
      if leb field_path_cap (length field_path)
      then err index_unsupported
      else create_found memory field_path key_type_tag unique descending
          (mmap_open os read_write (page_size * 2))

  -- The checks of the header, and the path that it stores.
  unfoldable pub read_header : Memory → Exec (List ℕ)
  read_header memory file =
      (if ltb (mmap_size file) btree_header_len then raise invalid_file_header else (do
        magic ← peek 0 4
        if not (same_bytes magic btree_magic) then raise invalid_file_header else (do
          version ← read_u16 4
          if not (version == btree_version)
              then raise invalid_file_header
              else (if not memory.handle then raise out_of_memory else (do
                path_len ← peek_u8 off_field_path_len
                if not memory.path then raise out_of_memory else peek off_field_path path_len)))))
        file

  abbrev opened_tree : Result (List ℕ) × MmapFile → Result Btree
  opened_tree (ok path, file) = ok (record { file = file; field_path = some path })
  opened_tree (err s, file) = err s
  opened_tree (fault, file) = fault
  opened_tree (stuck, file) = stuck

  abbrev open_found : Memory → Result MmapFile → Result Btree
  open_found memory (ok file) = opened_tree (read_header memory file)
  open_found memory (err s) = err s
  open_found memory fault = fault
  open_found memory stuck = stuck

  -- `bson_btree_open`
  unfoldable pub btree_open : Memory → Result Btree
  btree_open memory = open_found memory (mmap_open os read_write 0)

  -- `bson_btree_flush`
  unfoldable pub btree_flush : Exec (Unit {0})
  btree_flush = flush os

  -- `bson_btree_close` of a tree that is not NULL: the flush may fail unseen.
  unfoldable pub btree_close : Exec (Unit {0})
  btree_close = ignore (flush os)
