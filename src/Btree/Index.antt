-- ===== src/Btree/Index.antt =====
-- A whole index: the tree of its pages, and which of its entries a key and a range have.
pub mod Descended
pub mod Lookup
pub mod Range
pub mod Unique
use bsondb.Common.{
  ℕ, suc, ◌+◌, ◌*◌, ◌/◌, ◌^◌, ◌≤◌, ◌<◌, ◌≡◌, refl, List, [], ◌∷◌, ◌++◌, Bool, true, ◌&&◌, ◌||◌, ltb,
  Option, none, some, ◌==◌, if◌then◌else◌, length, slice, All, to_le,
}
use bsondb.Mmap.{MmapFile, Mode, read_write}
use bsondb.Btree.Key.Rank.{rank}
use bsondb.Btree.Layout.{is_live}
use bsondb.Btree.Leaf.{Entry, IsEntry}
use bsondb.Btree.Order.{IsAscending, hits}
use bsondb.Btree.Range.{Bounds}
use bsondb.Btree.Tree.{
  Tree, leaf, branch, Forest, done, kid, page_of, leaves, contents, HoldsTree, IsSplit, IsLinked,
}

-- The number of pages.
unfoldable mutual
  pub size : Tree → ℕ
  size (leaf page es) = 1
  size (branch page t f) = suc (size t + forest_size f)

  pub forest_size : Forest → ℕ
  forest_size done = 0
  forest_size (kid key t f) = size t + forest_size f

-- `file` is mapped for writing and holds the index with the tree `t`: every page in use is one of the
-- tree's, the leaves are linked, and their entries ascend.
pub record HoldsIndex (file : MmapFile) (t : Tree) : Type 0 where
  pub mapped : file.mapped ≡ true
  pub writable : file.mode ≡ read_write
  pub root_field : slice file.bytes 16 8 ≡ to_le 8 (page_of t)
  pub count_field : slice file.bytes 24 8 ≡ to_le 8 (size t)
  pub capacity : (size t + 1) * 4096 ≤ length file.bytes
  pub small : length file.bytes < 2 ^ 62
  pub root_small : page_of t < 2 ^ 64
  pub pages : HoldsTree file.bytes t
  pub split : IsSplit t
  pub first : ℕ
  pub linked : IsLinked file.bytes first (leaves t)
  pub entries : All IsEntry (contents (leaves t))
  pub ascending : IsAscending (contents (leaves t))

-- The live entries of a key.
abbrev pub matches : List ℕ → Entry → Bool
matches key e = (rank e.key == rank key) && is_live e.flags

abbrev pub offsets_of : List ℕ → List Entry → List ℕ
offsets_of key = hits (matches key)

-- The live entries between two bounds, each of which may be absent, and belongs to the range or not.
abbrev pub over : Option (List ℕ) → Bool → ℕ → Bool
over none inclusive r = true
over (some low) inclusive r = ltb (rank low) r || ((r == rank low) && inclusive)

abbrev pub under : Option (List ℕ) → Bool → ℕ → Bool
under none inclusive r = true
under (some high) inclusive r = ltb r (rank high) || ((r == rank high) && inclusive)

abbrev pub lies_in : Bounds → Entry → Bool
lies_in b e =
    over b.low b.low_inclusive (rank e.key)
    && (under b.high b.high_inclusive (rank e.key) && is_live e.flags)

abbrev pub offsets_in : Bounds → List Entry → List ℕ
offsets_in b = hits (lies_in b)
