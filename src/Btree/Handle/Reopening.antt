-- ===== src/Btree/Handle/Reopening.antt =====
-- What `open_index_file` gives to Python, and an index that is created and then opened.
use bsondb.Common.{ℕ, ◌^◌, ◌<◌, ◌≡◌, refl, List, [], Bool, true, some, length, arith}
use bsondb.Mmap.{MmapFile, read_write, Os}
use bsondb.Mmap.Opening.{IsWilling, mmap_open-found}
use bsondb.Storage.Handle.{Reply, returned}
use bsondb.Btree.Tree.{leaf}
use bsondb.Btree.Header.{
  HoldsHeader, btree_unique-HoldsHeader, btree_descending-HoldsHeader, read_header-HoldsHeader,
}
use bsondb.Btree.Index.{HoldsIndex}
use bsondb.Btree.Lifecycle.{Btree, Memory, IsAmple, btree_open}
use bsondb.Btree.Handle.{
  IndexHandle, with_tree, get_unique, get_descending, get_field_path, create_index_file,
  open_index_file,
}
use bsondb.Btree.Handle.Creation.{create_index_file_lem}

-- A handle on those bytes with that path and those flags.
abbrev pub Opens : List ℕ → List ℕ → Bool → Bool → Reply IndexHandle → Type 0
Opens bytes path unique descending r =
    (tree : Btree) × (r ≡ returned (some tree))
    × (tree.file.bytes ≡ bytes)
    × (get_field_path (some tree) ≡ (returned path, some tree))
    × (get_unique (some tree) ≡ (returned unique, some tree))
    × (get_descending (some tree) ≡ (returned descending, some tree))

module _ (os : Os) (memory : Memory) (ample : IsAmple memory) (bytes path : List ℕ)
    (unique descending : Bool) (willing : IsWilling os bytes)
    (h : HoldsHeader bytes path unique descending) where
  abbrev file : MmapFile
  file = record { mode = read_write; bytes = bytes; mapped = true }

  abbrev tree : Btree
  tree = record { file = file; field_path = some path }

  path_there : get_field_path (some tree) ≡ (returned path, some tree)
  unfolding get_field_path
  path_there = refl

  unique_there : get_unique (some tree) ≡ (returned unique, some tree)
  unfolding get_unique with_tree
  unique_there = rw (btree_unique-HoldsHeader file refl path unique descending h)

  descending_there : get_descending (some tree) ≡ (returned descending, some tree)
  unfolding get_descending with_tree
  descending_there = rw (btree_descending-HoldsHeader file refl path unique descending h)

  open_index_file_lem : Opens bytes path unique descending (open_index_file os true memory)
  unfolding open_index_file btree_open
  open_index_file_lem = (
    tree,
    rw (
      mmap_open-found os bytes willing (omega (arith, h.fits)),
      read_header-HoldsHeader file refl path unique descending h os memory ample,
    ),
    refl,
    path_there,
    unique_there,
    descending_there,
  )

-- On a system that finds fewer than 2 ^ 62 bytes at the path of the file and does all that it is asked,
-- with enough memory and a field path of fewer than 200 bytes: `create_index_file` returns a handle on
-- an index without entries. Once the system finds the bytes of that file (`later`), `open_index_file`
-- returns a handle on the same bytes whose path and flags are those of the creation.
pub create_then_open :
    (os : Os) (found : List ℕ) (memory : Memory) (path : List ℕ) (tag : ℕ)
    (unique descending : Bool) (later : List ℕ → Os)
    → length path < 200
    → IsAmple memory
    → IsWilling os found
    → length found < 2 ^ 62
    → ((bytes : List ℕ) → IsWilling (later bytes) bytes)
    → (tree : Btree) × (create_index_file os true memory path tag unique descending
        ≡ returned (some tree))
      × HoldsIndex tree.file (leaf 1 [])
      × Opens tree.file.bytes path unique descending
          (open_index_file (later tree.file.bytes) true memory)
create_then_open os found memory path tag unique descending later short ample willing small kept =
    let (tree, e, h, header) =
      create_index_file_lem os memory ample path tag unique descending short found willing small in
    (
      tree,
      e,
      h,
      open_index_file_lem (later tree.file.bytes) memory ample tree.file.bytes path unique
          descending (kept tree.file.bytes) header,
    )
