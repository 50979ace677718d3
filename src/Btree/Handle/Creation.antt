-- ===== src/Btree/Handle/Creation.antt =====
-- What `create_index_file` gives to Python.
use bsondb.Common.{ℕ, ◌%◌, ◌^◌, ◌<◌, ◌≡◌, List, [], Bool, true, false, some, leb, length, arith}
use bsondb.Bson.Result.{ok}
use bsondb.Mmap.{MmapFile, read_write, Os, mmap_open}
use bsondb.Mmap.Opening.{IsOpened, IsWilling, mmap_open-IsWilling}
use bsondb.Storage.Handle.{Reply, returned}
use bsondb.Btree.Tree.{leaf}
use bsondb.Btree.Header.{HoldsHeader}
use bsondb.Btree.Index.{HoldsIndex}
use bsondb.Btree.Lifecycle.{Btree, Memory, IsAmple, btree_create}
use bsondb.Btree.Lifecycle.Created.{made, made-HoldsIndex, made-HoldsHeader, create_in_lem}
use bsondb.Btree.Handle.{IndexHandle, create_index_file}

-- A handle on an empty index whose header has the path and the flags.
abbrev pub Creates : List ℕ → Bool → Bool → Reply IndexHandle → Type 0
Creates path unique descending r =
    (tree : Btree) × (r ≡ returned (some tree))
    × HoldsIndex tree.file (leaf 1 [])
    × HoldsHeader tree.file.bytes path unique descending

module _ (os : Os) (memory : Memory) (ample : IsAmple memory) (path : List ℕ) (tag : ℕ)
    (unique descending : Bool) (short : length path < 200) where
  not_long : leb 200 (length path) ≡ false
  not_long = ground (arith, short)

  module _ (file : MmapFile) (h : IsOpened 8192 file) where
    abbrev tree : Btree
    tree = record {
      file = made file h.mapped h.writable path (tag % 256) unique descending short h.large h.small;
      field_path = some path;
    }

    created_there :
        mmap_open os read_write 8192 ≡ ok file
        → Creates path unique descending
            (create_index_file os true memory path tag unique descending)
    unfolding create_index_file btree_create
    created_there e = (
      tree,
      rw (
        not_long,
        e,
        ample.handle,
        ample.path,
        create_in_lem file h.mapped h.writable path (tag % 256) unique descending short h.large
            h.small os,
      ),
      made-HoldsIndex file h.mapped h.writable path (tag % 256) unique descending short h.large
          h.small,
      made-HoldsHeader file h.mapped h.writable path (tag % 256) unique descending short h.large
          h.small,
    )

  pub create_index_file_lem :
      (found : List ℕ)
      → IsWilling os found
      → length found < 2 ^ 62
      → Creates path unique descending (create_index_file os true memory path tag unique descending)
  create_index_file_lem found willing small =
      let (file, e, h) =
        mmap_open-IsWilling os 8192 (omega arith) (omega arith) found willing small in
      created_there file h e
