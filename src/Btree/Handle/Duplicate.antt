-- ===== src/Btree/Handle/Duplicate.antt =====
-- What `IndexHandle_insert` answers where a unique index has the key.
use bsondb.Common.{ℕ, ◌≡◌, List, true, some}
use bsondb.Bson.Result.{ok}
use bsondb.Mmap.{Os}
use bsondb.Storage.Handle.{returned, raised, duplicate_key_error, reply}
use bsondb.Btree.Key.Rank.{IsKey}
use bsondb.Btree.Tree.{Tree, leaves, contents}
use bsondb.Btree.Chain.Live.{nonempty}
use bsondb.Btree.Index.{HoldsIndex, offsets_of}
use bsondb.Btree.Index.Unique.{btree_insert-duplicate}
use bsondb.Btree.Lifecycle.{Btree}
use bsondb.Btree.Layout.{btree_unique}
use bsondb.Btree.Handle.{with_tree, with_key, index_insert}

-- On a file that holds an index with the tree `t` and is unique, `insert` of a key with a live entry
-- raises DuplicateKeyError and changes nothing, whatever the record offset.
pub index_insert-duplicate :
    (os : Os) (tree : Btree) (t : Tree) (key : List ℕ) (offset : ℕ)
    → HoldsIndex tree.file t
    → IsKey key
    → btree_unique tree.file ≡ (ok true, tree.file)
    → nonempty (offsets_of key (contents (leaves t))) ≡ true
    → index_insert os key offset (some tree) ≡ (raised duplicate_key_error, some tree)
unfolding index_insert with_key with_tree bsondb.Storage.Handle.storage_error_to_python
index_insert-duplicate os tree t key offset h key_ok unique here =
    rw (key_ok.sized, btree_insert-duplicate tree.file t h key key_ok os offset unique here)
