-- ===== src/Btree/Range.antt =====
-- `bson_btree_range` and `bson_btree_delete`.
use bsondb.Common.{
  ℕ, zero, suc, ◌+◌, List, [], ◌∷◌, Bool, true, false, Option, none, some, ◌&&◌, ◌||◌, not, ◌==◌,
  if◌then◌else◌, bit_or,
}
use bsondb.Bson.Result.{stuck}
use bsondb.Mmap.Exec.{Exec, pure, ◌>>=◌, ◌>>◌, peek, poke}
use bsondb.Storage.Header.{lift}
use bsondb.Btree.Key.{key_size, key_cmp}
use bsondb.Btree.Offsets.{OffsetList, offset_list_push}
use bsondb.Btree.Layout.{
  leaf_entry_off, page_entries, page_link, read_leaf_offset, read_leaf_flags, is_live, current_root,
}
use bsondb.Btree.Search.{is_less, is_equal, is_greater, rounds, descend_to_leaf, leftmost_leaf}

-- The tests against the bounds; a bound that is absent is NULL.
abbrev pub below_low : Option (List ℕ) → Bool → List ℕ → Bool
below_low none inclusive entry = false
below_low (some low) inclusive entry =
    is_less (key_cmp entry low) || (is_equal (key_cmp entry low) && not inclusive)

abbrev pub above_high : Option (List ℕ) → Bool → List ℕ → Bool
above_high none inclusive entry = false
above_high (some high) inclusive entry =
    is_greater (key_cmp entry high) || (is_equal (key_cmp entry high) && not inclusive)

-- The bounds of a range and whether they belong to it.
pub record Bounds : Type 0 where
  pub low : Option (List ℕ)
  pub low_inclusive : Bool
  pub high : Option (List ℕ)
  pub high_inclusive : Bool

-- The leaf where the walk begins.
unfoldable pub first_leaf : Option (List ℕ) → ℕ → Exec ℕ
first_leaf none root = leftmost_leaf root
first_leaf (some low) root = descend_to_leaf root low

module _ (can_alloc : ℕ → Bool) where
  unfoldable pub range_in_leaf : ℕ → ℕ → ℕ → Bounds → OffsetList → Exec (Bool × OffsetList)
  range_in_leaf zero page i b out = pure (false, out)
  range_in_leaf (suc n) page i b out = do
    entry ← peek (leaf_entry_off page i) key_size
    if below_low b.low b.low_inclusive entry
        then range_in_leaf n page (i + 1) b out
        else (if above_high b.high b.high_inclusive entry then pure (true, out) else (do
          flags ← read_leaf_flags (leaf_entry_off page i)
          if is_live flags
              then (do
                offset ← read_leaf_offset (leaf_entry_off page i)
                out' ← lift (offset_list_push can_alloc out offset)
                range_in_leaf n page (i + 1) b out')
              else range_in_leaf n page (i + 1) b out))

  unfoldable pub range_in_chain : ℕ → ℕ → Bounds → OffsetList → Exec OffsetList
  range_in_chain zero leaf b out = lift stuck
  range_in_chain (suc fuel) leaf b out = if leaf == 0 then pure out else (do
    count ← page_entries leaf
    (done, out') ← range_in_leaf count leaf 0 b out
    if done then pure out' else (do next ← page_link leaf; range_in_chain fuel next b out'))

  -- `bson_btree_range`
  unfoldable pub btree_range : Bounds → OffsetList → Exec OffsetList
  btree_range b out file =
      (do
        root ← current_root
        leaf ← first_leaf b.low root
        range_in_chain (rounds file) leaf b out)
        file

-- `cmp == 0 && read_leaf_offset(entry) == record_offset`
abbrev pub offset_where : Bool → ℕ → ℕ → Exec Bool
offset_where false slot record_offset = pure false
offset_where true slot record_offset = do
  offset ← read_leaf_offset slot
  pure (offset == record_offset)

-- The entry of a leaf that `bson_btree_delete` marks, and whether it returns.
unfoldable pub delete_in_leaf : ℕ → ℕ → ℕ → List ℕ → ℕ → Exec Bool
delete_in_leaf zero page i key record_offset = pure false
delete_in_leaf (suc n) page i key record_offset = do
  entry ← peek (leaf_entry_off page i) key_size
  if is_greater (key_cmp entry key) then pure true else (do
    same ← offset_where (is_equal (key_cmp entry key)) (leaf_entry_off page i) record_offset
    if same
        then (do
          flags ← read_leaf_flags (leaf_entry_off page i)
          poke (leaf_entry_off page i + 21) (bit_or flags 1 ∷ [])
          pure true)
        else delete_in_leaf n page (i + 1) key record_offset)

unfoldable pub delete_in_chain : ℕ → ℕ → List ℕ → ℕ → Exec (Unit {0})
delete_in_chain zero leaf key record_offset = lift stuck
delete_in_chain (suc fuel) leaf key record_offset = if leaf == 0 then pure tt else (do
  count ← page_entries leaf
  done ← delete_in_leaf count leaf 0 key record_offset
  if done then pure tt else (do next ← page_link leaf; delete_in_chain fuel next key record_offset))

-- `bson_btree_delete`
unfoldable pub btree_delete : List ℕ → ℕ → Exec (Unit {0})
btree_delete key record_offset file =
    (do
      root ← current_root
      leaf ← descend_to_leaf root key
      delete_in_chain (rounds file) leaf key record_offset)
      file
