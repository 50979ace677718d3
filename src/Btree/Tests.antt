-- ===== src/Btree/Tests.antt =====
-- Runs of the index, and the theorems at concrete files.
use bsondb.Common.{
  ℕ, ◌≤◌, ◌<◌, ◌≡◌, refl, List, [], ◌∷◌, ◌++◌, Bool, true, false, Option, none, some, to_le,
  replicate, length, arith,
}
use bsondb.Mmap.{MmapFile, read_write, Os}
use bsondb.Mmap.Opening.{IsWilling}
use bsondb.Btree.Handle.Reopening.{Opens, create_then_open}
use Prim.Native.Nat.{compare}
use bsondb.Btree.Key.{key_cmp}
use bsondb.Btree.Key.Rank.{IsKey, rank, key_cmp_lem}
use bsondb.Btree.Leaf.{Entry, IsEntry, entry_bytes, HoldsLeaf, read_u16-field}
use bsondb.Btree.Tree.{leaf, HoldsTree, IsSplit, leaves}
use bsondb.Btree.Layout.{page_off, btree_unique}
use bsondb.Common.{ap, ◌⊎◌, ◌*◌, ◌+◌}
use bsondb.Bson.Result.{ok, err, out_of_memory}
use bsondb.Storage.Tests.{willing}
use bsondb.Common.{All, All-append, IsByte, to_le-IsByte, ◌^◌}
use bsondb.Btree.Order.{IsAscending}
use bsondb.Btree.Index.{size, HoldsIndex}
use bsondb.Btree.Handle.Duplicate.{index_insert-duplicate}
use bsondb.Btree.Offsets.{offset_list_init, offset_list_push}
use bsondb.Btree.Offsets.Bounds.{IsSized, pushed, offset_list_push_cases}
use bsondb.Storage.Handle.{returned, raised, duplicate_key_error}
use bsondb.Btree.Lifecycle.{Btree, Memory, IsAmple}
use bsondb.Btree.Range.{Bounds}
use bsondb.Btree.Handle.{
  index_lookup, index_range, index_insert, create_index_file, open_index_file,
}
use bsondb.Btree.Handle.Lookup.{Answers, index_lookup_lem, index_range_lem}

abbrev int_key : ℕ → List ℕ
int_key n = 2 ∷ to_le 8 n ++ (0 ∷ 0 ∷ 0 ∷ 0 ∷ [])

int_key-IsKey : (n : ℕ) → IsKey (int_key n)
unfolding to_le bsondb.Btree.Key.is_nan
int_key-IsKey n = record {
  sized = refl;
  bytes = (
    omega arith,
    All-append IsByte (to_le 8 n) (0 ∷ 0 ∷ 0 ∷ 0 ∷ []) (to_le-IsByte 8 n)
        (omega arith, (omega arith, (omega arith, (omega arith, tt)))),
  );
  number = λ e. absurd (omega (arith, e));
}

int_key-IsEntry :
    (n offset flags : ℕ)
    → offset < 2 ^ 64
    → IsEntry (record { key = int_key n; offset = offset; flags = flags })
int_key-IsEntry n offset flags h = record { key = int_key-IsKey n; offset = h }

-- Two records with the key 7, the second one deleted, and one with the key 9.
abbrev some_entries : List Entry
some_entries =
    (record { key = int_key 7; offset = 64; flags = 0 })
    ∷ (record { key = int_key 7; offset = 90; flags = 1 })
    ∷ (record { key = int_key 9; offset = 120; flags = 0 })
    ∷ []

some_entries-IsEntry : All IsEntry some_entries
some_entries-IsEntry = (
  int_key-IsEntry 7 64 0 (omega arith),
  (int_key-IsEntry 7 90 1 (omega arith), (int_key-IsEntry 9 120 0 (omega arith), tt)),
)

some_entries-IsAscending : IsAscending some_entries
unfolding rank bsondb.Common.from_le to_le
some_entries-IsAscending = ((omega arith, (omega arith, tt)), ((omega arith, tt), (tt, tt)))

abbrev index_bytes : List ℕ
index_bytes =
    (0x43 ∷ 0x42 ∷ 0x49 ∷ 0x31 ∷ 1 ∷ 0 ∷ 2 ∷ 0 ∷ [])
    ++ (to_le 4 256
        ++ (to_le 4 4096
            ++ (to_le 8 1
                ++ (to_le 8 1
                    ++ (replicate 4064 0
                        ++ ((1 ∷ 0 ∷ 3 ∷ 0 ∷ 0 ∷ 0 ∷ 0 ∷ 0 ∷ [])
                            ++ (to_le 8 0 ++ (entry_bytes some_entries ++ replicate 4014 0))))))))

abbrev index_file : MmapFile
index_file = record { mode = read_write; bytes = index_bytes; mapped = true }

some_leaf : HoldsLeaf index_bytes 1 some_entries 0
unfolding page_off to_le
some_leaf = record {
  fits = omega arith;
  type_field = refl;
  count_field = refl;
  link_field = refl;
  entries_field = refl;
  room = omega arith;
  entries = some_entries-IsEntry;
  next_small = omega arith;
}

index_file-HoldsIndex : HoldsIndex index_file (leaf 1 some_entries)
unfolding page_off to_le size leaves HoldsTree IsSplit
index_file-HoldsIndex = record {
  mapped = refl;
  writable = refl;
  root_field = refl;
  count_field = refl;
  capacity = omega arith;
  small = omega arith;
  root_small = omega arith;
  pages = (0, some_leaf);
  split = tt;
  first = 1;
  linked = (refl, (omega arith, (0, some_leaf, refl)));
  entries = some_entries-IsEntry;
  ascending = some_entries-IsAscending;
}

abbrev index_tree : Btree
index_tree = record { file = index_file; field_path = some (97 ∷ []) }

index_lookup_lem_example :
    Answers
      (λ n. true)
      true
      (64 ∷ [])
      index_tree
      (index_lookup (λ n. true) true (int_key 7) (some index_tree))
unfolding leaves rank bsondb.Common.from_le to_le
index_lookup_lem_example =
    index_lookup_lem (λ n. true) true index_tree (leaf 1 some_entries) (int_key 7)
      index_file-HoldsIndex (int_key-IsKey 7)

key_cmp_lem_example :
    key_cmp (int_key 7) (int_key 9) ≡ compare (rank (int_key 7)) (rank (int_key 9))
key_cmp_lem_example = key_cmp_lem (int_key 7) (int_key 9) (int_key-IsKey 7) (int_key-IsKey 9)

abbrev from_eight : Bounds
from_eight = record {
  low = some (int_key 8);
  low_inclusive = true;
  high = none;
  high_inclusive = false;
}

index_range_lem_example :
    Answers
      (λ n. true)
      true
      (120 ∷ [])
      index_tree
      (index_range (λ n. true) true from_eight (some index_tree))
unfolding leaves rank bsondb.Common.from_le to_le
index_range_lem_example =
    index_range_lem (λ n. true) true index_tree (leaf 1 some_entries) from_eight
      index_file-HoldsIndex (int_key-IsKey 8) tt

-- The index is unique: its flags have that bit.
index_file_unique : btree_unique index_file ≡ (ok true, index_file)
unfolding btree_unique to_le
index_file_unique = rw (read_u16-field index_file refl 6 2 (omega arith) refl (omega arith))

index_insert-duplicate_example :
    index_insert willing (int_key 9) 200 (some index_tree)
    ≡ (raised duplicate_key_error, some index_tree)
unfolding leaves rank bsondb.Common.from_le to_le
index_insert-duplicate_example =
    index_insert-duplicate willing index_tree (leaf 1 some_entries) (int_key 9) 200
      index_file-HoldsIndex (int_key-IsKey 9) index_file_unique refl

offset_list_init-IsSized : IsSized offset_list_init
unfolding offset_list_init
offset_list_init-IsSized = record { used = omega arith; tight = omega arith }

offset_list_push_cases_example :
    ((cap : ℕ) × (offset_list_push (λ n. true) offset_list_init 64
        ≡ ok (pushed offset_list_init 64 cap))
      × IsSized (pushed offset_list_init 64 cap))
    ⊎ ((offset_list_push (λ n. true) offset_list_init 64 ≡ err out_of_memory)
        × ((n : ℕ) × (true ≡ false) × (8 * (length offset_list_init.items + 1) ≤ n) × (n < 2 ^ 63)))
unfolding offset_list_init
offset_list_push_cases_example =
    offset_list_push_cases (λ n. true) offset_list_init 64 offset_list_init-IsSized (omega arith)

abbrev enough_memory : Memory
enough_memory = record { handle = true; path = true }

enough_memory-IsAmple : IsAmple enough_memory
enough_memory-IsAmple = record { handle = refl; path = refl }

-- A system on which the file has those bytes.
abbrev keeping : List ℕ → Os
keeping bytes = record willing { open_file = λ mode. some bytes }

keeping-IsWilling : (bytes : List ℕ) → IsWilling (keeping bytes) bytes
keeping-IsWilling bytes = record {
  finds = refl;
  resizes = λ bytes n. refl;
  maps = λ n. refl;
  allocates = refl;
}

create_then_open_example :
    (tree : Btree) × (create_index_file (keeping []) true enough_memory (97 ∷ 98 ∷ []) 2 true false
      ≡ returned (some tree))
    × HoldsIndex tree.file (leaf 1 [])
    × Opens tree.file.bytes
        (97 ∷ 98 ∷ [])
        true
        false
        (open_index_file (keeping tree.file.bytes) true enough_memory)
create_then_open_example =
    create_then_open (keeping []) [] enough_memory (97 ∷ 98 ∷ []) 2 true false keeping (omega arith)
      enough_memory-IsAmple (keeping-IsWilling []) (omega arith) keeping-IsWilling
