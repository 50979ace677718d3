-- ===== src/Btree/Insert.antt =====
-- `bson_btree_insert`: the descent, and the splits on the way back.
use bsondb.Common.{
  ℕ, zero, suc, ◌+◌, ◌-◌, ◌*◌, ◌/◌, List, [], ◌∷◌, ◌++◌, Bool, false, Option, none, some, ltb, ◌==◌,
  if◌then◌else◌, slice, take, from_le,
}
use bsondb.Bson.Result.{stuck, fault, duplicate_key}
use bsondb.Mmap.{Os}
use bsondb.Mmap.Exec.{Exec, pure, raise, ◌>>=◌, ◌>>◌, peek, poke, write_u16, write_u64}
use bsondb.Storage.Header.{lift}
use bsondb.Btree.Key.{key_size, key_cmp}
use bsondb.Btree.Layout.{
  page_type_leaf, page_type_internal, leaf_entry_len, leaf_max_entries, internal_entry_len,
  internal_max_keys, page_off, leaf_entry_off, internal_entry_off, page_type, page_entries,
  page_link, leaf_entry, write_leaf_entry, internal_entry, write_internal_entry, memmove,
  current_root, off_root_page_no, btree_unique,
}
use bsondb.Btree.Pages.{allocate_page}
use bsondb.Btree.Search.{is_greater, rounds, find_child, key_has_live_entry}

-- `*split_key_out` and `*split_page_out`, where `*did_split` is true.
pub record Split : Type 0 where
  pub key : List ℕ
  pub page : ℕ

-- The writes of a page's header.
abbrev pub set_type : ℕ → ℕ → Exec (Unit {0})
set_type page type = poke (page_off page) (type ∷ [])

abbrev pub set_entries : ℕ → ℕ → Exec (Unit {0})
set_entries page count = write_u16 (page_off page + 2) count

abbrev pub set_link : ℕ → ℕ → Exec (Unit {0})
set_link page link = write_u64 (page_off page + 8) link

-- `while (insert_at < count && bson_btree_key_cmp(...) <= 0)`, with `n` entries left.
unfoldable pub find_slot : ℕ → ℕ → ℕ → List ℕ → Exec ℕ
find_slot zero page i key = pure i
find_slot (suc n) page i key = do
  entry ← peek (leaf_entry_off page i) key_size
  if is_greater (key_cmp entry key) then pure i else find_slot n page (i + 1) key

-- The leaf has room: the entries from `at` on move up by one.
unfoldable pub insert_in_leaf : ℕ → ℕ → ℕ → List ℕ → ℕ → Exec (Option Split)
insert_in_leaf page count at key offset = do
  memmove (leaf_entry_off page (at + 1)) (leaf_entry_off page at) ((count - at) * leaf_entry_len)
  write_leaf_entry (leaf_entry_off page at) key offset 0
  set_entries page (count + 1)
  pure none

-- The internal page has room.
unfoldable pub insert_in_internal : ℕ → ℕ → ℕ → Split → Exec (Option Split)
insert_in_internal page count at split = do
  memmove (internal_entry_off page (at + 1)) (internal_entry_off page at)
      ((count - at) * internal_entry_len)
  write_internal_entry (internal_entry_off page at) split.key split.page
  set_entries page (count + 1)
  pure none

module _ (os : Os) where
  -- The leaf is full. `tmp` has room for one entry more than a leaf.
  unfoldable pub split_leaf : ℕ → ℕ → ℕ → List ℕ → ℕ → Exec (Option Split)
  split_leaf page count at key offset = if ltb leaf_max_entries count then lift fault else (do
    before ← peek (leaf_entry_off page 0) (at * leaf_entry_len)
    after ← peek (leaf_entry_off page at) ((count - at) * leaf_entry_len)
    let tmp = before ++ (leaf_entry key offset 0 ++ after)
    let left_n = (count + 1 + 1) / 2
    let right_n = count + 1 - left_n
    new_page ← allocate_page os
    old_next ← page_link page
    poke (leaf_entry_off page 0) (take (left_n * leaf_entry_len) tmp)
    set_entries page left_n
    set_link page new_page
    set_type new_page page_type_leaf
    poke (leaf_entry_off new_page 0)
        (slice tmp (left_n * leaf_entry_len) (right_n * leaf_entry_len))
    set_entries new_page right_n
    set_link new_page old_next
    pure (some (record { key = slice tmp (left_n * leaf_entry_len) key_size; page = new_page })))

  -- The internal page is full: the middle key goes up and stays in neither half.
  unfoldable pub split_internal : ℕ → ℕ → ℕ → Split → Exec (Option Split)
  split_internal page count at split = if ltb internal_max_keys count then lift fault else (do
    leftmost ← page_link page
    before ← peek (internal_entry_off page 0) (at * internal_entry_len)
    after ← peek (internal_entry_off page at) ((count - at) * internal_entry_len)
    let tmp = before ++ (internal_entry split.key split.page ++ after)
    let mid = (count + 1) / 2
    let right_n = count + 1 - mid - 1
    new_page ← allocate_page os
    poke (internal_entry_off page 0) (take (mid * internal_entry_len) tmp)
    set_entries page mid
    set_link page leftmost
    set_type new_page page_type_internal
    set_link new_page (from_le (slice tmp (mid * internal_entry_len + key_size) 8))
    poke (internal_entry_off new_page 0)
        (slice tmp ((mid + 1) * internal_entry_len) (right_n * internal_entry_len))
    set_entries new_page right_n
    pure (some (record { key = slice tmp (mid * internal_entry_len) key_size; page = new_page })))

  -- `insert_recursive` at a leaf.
  unfoldable pub insert_at_leaf : ℕ → List ℕ → ℕ → Bool → Exec (Option Split)
  insert_at_leaf page key offset unique = do
    taken ← (if unique then key_has_live_entry page key else pure false)
    if taken then raise duplicate_key else (do
      count ← page_entries page
      at ← find_slot count page 0 key
      if ltb count leaf_max_entries
          then insert_in_leaf page count at key offset
          else split_leaf page count at key offset)

  -- `insert_recursive` at an internal page, once the child at `at` was split.
  unfoldable pub insert_split : ℕ → ℕ → Split → Exec (Option Split)
  insert_split page at split = do
    count ← page_entries page
    if ltb count internal_max_keys
        then insert_in_internal page count at split
        else split_internal page count at split

  abbrev after_child : ℕ → ℕ → Option Split → Exec (Option Split)
  after_child page at none = pure none
  after_child page at (some split) = insert_split page at split

  -- `insert_recursive`; the recursion goes down by a level each time.
  unfoldable pub insert_recursive : ℕ → ℕ → List ℕ → ℕ → Bool → Exec (Option Split)
  insert_recursive zero page key offset unique = lift stuck
  insert_recursive (suc fuel) page key offset unique = do
    type ← page_type page
    if type == page_type_leaf then insert_at_leaf page key offset unique else (do
      count ← page_entries page
      leftmost ← page_link page
      (at, child) ← find_child count page 0 leftmost key
      split ← insert_recursive fuel child key offset unique
      after_child page at split)

  -- A new root over the old one and its new sibling.
  unfoldable pub grow_root : ℕ → Split → Exec (Unit {0})
  grow_root root split = do
    new_root ← allocate_page os
    set_type new_root page_type_internal
    set_link new_root root
    write_internal_entry (internal_entry_off new_root 0) split.key split.page
    set_entries new_root 1
    write_u64 off_root_page_no new_root

  abbrev after_root : ℕ → Option Split → Exec (Unit {0})
  after_root root none = pure tt
  after_root root (some split) = grow_root root split

  -- `bson_btree_insert`
  unfoldable pub btree_insert : List ℕ → ℕ → Exec (Unit {0})
  btree_insert key record_offset file =
      (do
        root ← current_root
        unique ← btree_unique
        split ← insert_recursive (rounds file) root key record_offset unique
        after_root root split)
        file
