-- ===== src/Btree/Search.antt =====
-- Descent, lookup, range and delete in btree.c.
use Prim.Native.Nat.{Ordering}
use bsondb.Common.{
  ℕ, zero, suc, ◌+◌, ◌/◌, List, Bool, true, false, Option, none, some, ◌==◌, if◌then◌else◌, length,
}
use bsondb.Bson.Result.{stuck}
use bsondb.Mmap.{MmapFile}
use bsondb.Mmap.Exec.{Exec, pure, ◌>>=◌, peek, read_u64}
use bsondb.Storage.Header.{lift}
use bsondb.Btree.Key.{key_size, key_cmp}
use bsondb.Btree.Offsets.{OffsetList, offset_list_push}
use bsondb.Btree.Layout.{
  page_size, page_type_internal, internal_entry_off, leaf_entry_off, page_type, page_entries,
  page_link, read_leaf_offset, read_leaf_flags, is_live, current_root,
}

abbrev pub is_less : Ordering → Bool
is_less Ordering.lt = true
is_less _ = false

abbrev pub is_equal : Ordering → Bool
is_equal Ordering.eq = true
is_equal _ = false

abbrev pub is_greater : Ordering → Bool
is_greater Ordering.gt = true
is_greater _ = false

-- A walk visits each page at most once in a file whose pages form a tree, so as many rounds as the file
-- has pages are enough.
abbrev pub rounds : MmapFile → ℕ
rounds file = suc (length file.bytes / page_size)

-- The loop over the keys of an internal page, with `n` of them left: the index where it stops, and the
-- child there.
unfoldable pub find_child : ℕ → ℕ → ℕ → ℕ → List ℕ → Exec (ℕ × ℕ)
find_child zero page i child key = pure (i, child)
find_child (suc n) page i child key = do
  entry ← peek (internal_entry_off page i) key_size
  if is_less (key_cmp key entry) then pure (i, child) else (do
    next ← read_u64 (internal_entry_off page i + key_size)
    find_child n page (i + 1) next key)

-- `descend_to_leaf`
unfoldable pub descend_loop : ℕ → ℕ → List ℕ → Exec ℕ
descend_loop zero page key = lift stuck
descend_loop (suc fuel) page key = do
  type ← page_type page
  if type == page_type_internal
      then (do
        count ← page_entries page
        leftmost ← page_link page
        (i, child) ← find_child count page 0 leftmost key
        descend_loop fuel child key)
      else pure page

unfoldable pub descend_to_leaf : ℕ → List ℕ → Exec ℕ
descend_to_leaf page key file = descend_loop (rounds file) page key file

-- `leftmost_leaf`
unfoldable pub leftmost_loop : ℕ → ℕ → Exec ℕ
leftmost_loop zero page = lift stuck
leftmost_loop (suc fuel) page = do
  type ← page_type page
  if type == page_type_internal
      then (do child ← page_link page; leftmost_loop fuel child)
      else pure page

unfoldable pub leftmost_leaf : ℕ → Exec ℕ
leftmost_leaf page file = leftmost_loop (rounds file) page file

-- `cmp == 0 && (read_leaf_flags(entry) & LEAF_ENTRY_FLAG_DEAD) == 0`
abbrev pub live_where : Bool → ℕ → Exec Bool
live_where false slot = pure false
live_where true slot = do flags ← read_leaf_flags slot; pure (is_live flags)

-- A loop over the entries of a leaf, with `n` of them left: `some` is a `return` in it.
unfoldable pub live_in_leaf : ℕ → ℕ → ℕ → List ℕ → Exec (Option Bool)
live_in_leaf zero page i key = pure none
live_in_leaf (suc n) page i key = do
  entry ← peek (leaf_entry_off page i) key_size
  if is_greater (key_cmp entry key) then pure (some false) else (do
    live ← live_where (is_equal (key_cmp entry key)) (leaf_entry_off page i)
    if live then pure (some true) else live_in_leaf n page (i + 1) key)

-- A `return` in the loop over a leaf, or the walk goes on.
abbrev pub answer_or : Option Bool → Exec Bool → Exec Bool
answer_or none walk = walk
answer_or (some answer) walk = pure answer

-- `key_has_live_entry`: the loop over the chain of leaves.
unfoldable pub live_in_chain : ℕ → ℕ → List ℕ → Exec Bool
live_in_chain zero leaf key = lift stuck
live_in_chain (suc fuel) leaf key = if leaf == 0 then pure false else (do
  count ← page_entries leaf
  found ← live_in_leaf count leaf 0 key
  answer_or found (do next ← page_link leaf; live_in_chain fuel next key))

unfoldable pub key_has_live_entry : ℕ → List ℕ → Exec Bool
key_has_live_entry leaf key file = live_in_chain (rounds file) leaf key file

module _ (can_alloc : ℕ → Bool) where
  -- The entries of one leaf that `bson_btree_lookup` collects, and whether it returns.
  unfoldable pub lookup_in_leaf : ℕ → ℕ → ℕ → List ℕ → OffsetList → Exec (Bool × OffsetList)
  lookup_in_leaf zero page i key out = pure (false, out)
  lookup_in_leaf (suc n) page i key out = do
    entry ← peek (leaf_entry_off page i) key_size
    if is_greater (key_cmp entry key) then pure (true, out) else (do
      live ← live_where (is_equal (key_cmp entry key)) (leaf_entry_off page i)
      if live
          then (do
            offset ← read_leaf_offset (leaf_entry_off page i)
            out' ← lift (offset_list_push can_alloc out offset)
            lookup_in_leaf n page (i + 1) key out')
          else lookup_in_leaf n page (i + 1) key out)

  unfoldable pub lookup_in_chain : ℕ → ℕ → List ℕ → OffsetList → Exec OffsetList
  lookup_in_chain zero leaf key out = lift stuck
  lookup_in_chain (suc fuel) leaf key out = if leaf == 0 then pure out else (do
    count ← page_entries leaf
    (done, out') ← lookup_in_leaf count leaf 0 key out
    if done then pure out' else (do next ← page_link leaf; lookup_in_chain fuel next key out'))

  -- `bson_btree_lookup`
  unfoldable pub btree_lookup : List ℕ → OffsetList → Exec OffsetList
  btree_lookup key out file =
      (do
        root ← current_root
        leaf ← descend_to_leaf root key
        lookup_in_chain (rounds file) leaf key out)
        file
