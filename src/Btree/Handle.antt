-- ===== src/Btree/Handle.antt =====
-- `IndexHandle` in src/python_bindings/_storage_core.c: what Python calls on an index file.
pub mod Lookup
pub mod Duplicate
pub mod Creation
pub mod Reopening
use bsondb.Common.{
  ℕ, ◌%◌, List, Bool, true, false, Option, none, some, not, ◌==◌, if◌then◌else◌, length,
}
use bsondb.Bson.Result.{Result, ok, err, fault, stuck}
use bsondb.Mmap.{Os}
use bsondb.Mmap.Exec.{Exec, pure, raise, ◌>>=◌}
use bsondb.Storage.Handle.{
  Reply, returned, raised, crashed, hung, PyError, value_error, memory_error, reply,
  storage_error_to_python,
}
use bsondb.Btree.Key.{key_size}
use bsondb.Btree.Layout.{btree_unique, btree_descending}
use bsondb.Btree.Offsets.{OffsetList, offset_list_init}
use bsondb.Btree.Search.{btree_lookup}
use bsondb.Btree.Range.{Bounds, btree_range, btree_delete}
use bsondb.Btree.Insert.{btree_insert}
use bsondb.Btree.Lifecycle.{Btree, Memory, btree_create, btree_open, btree_flush, btree_close}

-- `self->tree`, which is NULL once the handle is closed.
abbrev pub IndexHandle : Type 0
IndexHandle = Option Btree

abbrev pub IndexMethod : Type 0 → Type 0
IndexMethod A = IndexHandle → Reply A × IndexHandle

-- CHECK_TREE_OPEN, then the tree, then the translation of its status.
unfoldable pub with_tree : {A : Type 0} → Exec A → IndexMethod A
with_tree m none = (raised value_error, none)
with_tree m (some tree) =
    let (r, file') = m tree.file in (reply r, some (record tree { file = file' }))

-- The test that a key has BSON_BTREE_KEY_SIZE bytes.
unfoldable pub with_key : {A : Type 0} → List ℕ → Exec A → IndexMethod A
with_key key m none = (raised value_error, none)
with_key key m (some tree) =
    if length key == key_size then with_tree m (some tree) else (raised value_error, some tree)

-- `offset_list_to_pylist`; `py_alloc` says whether the interpreter has memory for the list.
abbrev pub to_pylist : Bool → Reply OffsetList × IndexHandle → Reply (List ℕ) × IndexHandle
to_pylist py_alloc (returned out, handle) =
    (if py_alloc then returned out.items else raised memory_error, handle)
to_pylist py_alloc (raised e, handle) = (raised e, handle)
to_pylist py_alloc (crashed, handle) = (crashed, handle)
to_pylist py_alloc (hung, handle) = (hung, handle)

-- A bound is None or has the size of a key.
abbrev pub bound_ok : Option (List ℕ) → Bool
bound_ok none = true
bound_ok (some key) = length key == key_size

-- `IndexHandle_get_unique` and `IndexHandle_get_descending`
unfoldable pub get_unique : IndexMethod Bool
get_unique = with_tree btree_unique

unfoldable pub get_descending : IndexMethod Bool
get_descending = with_tree btree_descending

-- `IndexHandle_get_field_path`: `PyUnicode_FromString` of NULL crashes.
unfoldable pub get_field_path : IndexMethod (List ℕ)
get_field_path none = (raised value_error, none)
get_field_path (some tree) = elim tree.field_path [
  | none ↦ (crashed, some tree)
  | some path ↦ (returned path, some tree)
]

-- `IndexHandle_delete_entry`
unfoldable pub delete_entry : List ℕ → ℕ → IndexMethod (Unit {0})
delete_entry key offset = with_key key (btree_delete key offset)

module _ (can_alloc : ℕ → Bool) (py_alloc : Bool) where
  -- `IndexHandle_lookup`
  unfoldable pub index_lookup : List ℕ → IndexMethod (List ℕ)
  index_lookup key handle =
      to_pylist py_alloc (with_key key (btree_lookup can_alloc key offset_list_init) handle)

  -- `IndexHandle_range`
  unfoldable pub index_range : Bounds → IndexMethod (List ℕ)
  index_range b none = (raised value_error, none)
  index_range b (some tree) =
      if not (bound_ok b.low)
      then (raised value_error, some tree)
      else if not (bound_ok b.high)
      then (raised value_error, some tree)
      else to_pylist py_alloc (with_tree (btree_range can_alloc b offset_list_init) (some tree))

module _ (os : Os) where
  -- `IndexHandle_insert`
  unfoldable pub index_insert : List ℕ → ℕ → IndexMethod (Unit {0})
  index_insert key offset = with_key key (btree_insert os key offset)

  -- `IndexHandle_flush`
  unfoldable pub index_flush : IndexMethod (Unit {0})
  index_flush = with_tree (btree_flush os)

  -- `IndexHandle_close`: the handle is closed whatever the tree says.
  unfoldable pub index_close : IndexMethod (Unit {0})
  index_close none = (returned tt, none)
  index_close (some tree) = (reply (btree_close os tree.file).0, none)

  abbrev tree_handle : Bool → Result Btree → Reply IndexHandle
  tree_handle alloc (ok tree) = if alloc then returned (some tree) else raised memory_error
  tree_handle alloc (err s) = raised (storage_error_to_python s)
  tree_handle alloc fault = crashed
  tree_handle alloc stuck = hung

  -- `py_create_index_file` and `py_open_index_file`
  unfoldable pub create_index_file : Bool → Memory → List ℕ → ℕ → Bool → Bool → Reply IndexHandle
  create_index_file alloc memory path tag unique descending =
      tree_handle alloc (btree_create os memory path (tag % 256) unique descending)

  unfoldable pub open_index_file : Bool → Memory → Reply IndexHandle
  open_index_file alloc memory = tree_handle alloc (btree_open os memory)
