-- ===== src/Btree/Tree.antt =====
-- The pages of an index file as a tree: what the file holds, and the order of the keys in it.
pub mod Descent
pub mod Leftmost
use bsondb.Common.{
  ℕ, zero, suc, ◌+◌, ◌≤◌, ◌<◌, ◌≡◌, refl, sym, ap, ◌∙◌, List, [], ◌∷◌, ◌++◌, true, All,
  append_assoc,
}
use bsondb.Btree.Key.Rank.{IsKey, rank}
use bsondb.Btree.Layout.{is_live}
use bsondb.Btree.Leaf.{Entry, IsEntry, HoldsLeaf}
use bsondb.Btree.Internal.{Kid, HoldsInternal}

-- A leaf has its page and its entries, an internal page its leftmost child and keys with a child each.
mutual
  pub data Tree : Type 0 where
    leaf : ℕ → List Entry → Tree
    branch : ℕ → Tree → Forest → Tree

  pub data Forest : Type 0 where
    done : Forest
    kid : List ℕ → Tree → Forest → Forest

abbrev pub page_of : Tree → ℕ
page_of (leaf page es) = page
page_of (branch page t f) = page

abbrev pub kids : Forest → List Kid
kids done = []
kids (kid key t f) = (record { key = key; child = page_of t }) ∷ kids f

abbrev pub Leaves : Type 0
Leaves = List (ℕ × List Entry)

-- The leaves from left to right, and how deep they are.
unfoldable mutual
  pub leaves : Tree → Leaves
  leaves (leaf page es) = (page, es) ∷ []
  leaves (branch page t f) = leaves t ++ forest_leaves f

  pub forest_leaves : Forest → Leaves
  forest_leaves done = []
  forest_leaves (kid key t f) = leaves t ++ forest_leaves f

unfoldable mutual
  pub depth : Tree → ℕ
  depth (leaf page es) = 0
  depth (branch page t f) = suc (depth t + forest_depth f)

  pub forest_depth : Forest → ℕ
  forest_depth done = 0
  forest_depth (kid key t f) = depth t + forest_depth f

abbrev pub contents : Leaves → List Entry
contents [] = []
contents ((page, es) ∷ ls) = es ++ contents ls

pub contents-append : (xs ys : Leaves) → contents (xs ++ ys) ≡ contents xs ++ contents ys
contents-append [] ys = refl
contents-append ((page, es) ∷ xs) ys =
    ap (λ t. es ++ t) (contents-append xs ys) ∙ sym (append_assoc es (contents xs) (contents ys))

-- Below a key, and strictly so where the entry is live.
abbrev pub IsBelow : List ℕ → Entry → Type 0
IsBelow key e = (rank e.key ≤ rank key) × (is_live e.flags ≡ true → rank e.key < rank key)

abbrev pub IsAbove : List ℕ → Entry → Type 0
IsAbove key e = rank key ≤ rank e.key

-- The pages of the file are those of the tree.
unfoldable mutual
  pub HoldsTree : List ℕ → Tree → Type 0
  HoldsTree bytes (leaf page es) = (next : ℕ) × HoldsLeaf bytes page es next
  HoldsTree bytes (branch page t f) =
      HoldsInternal bytes page (page_of t) (kids f) × (HoldsTree bytes t × HoldsForest bytes f)

  pub HoldsForest : List ℕ → Forest → Type 0
  HoldsForest bytes done = Unit
  HoldsForest bytes (kid key t f) = HoldsTree bytes t × HoldsForest bytes f

-- Each key of an internal page stands between what is left and what is right of it. Dead entries of the
-- same key may be left of it.
unfoldable mutual
  pub IsSplit : Tree → Type 0
  IsSplit (leaf page es) = Unit
  IsSplit (branch page t f) = IsSplit t × IsForestSplit (contents (leaves t)) f

  pub IsForestSplit : List Entry → Forest → Type 0
  IsForestSplit left done = Unit
  IsForestSplit left (kid key t f) =
      IsKey key
      × (All (IsBelow key) left
          × (All (IsAbove key) (contents (leaves t ++ forest_leaves f))
              × (IsSplit t × IsForestSplit (left ++ contents (leaves t)) f)))

-- The leaves are linked from left to right.
abbrev pub IsLinked : List ℕ → ℕ → Leaves → Type 0
IsLinked bytes page [] = page ≡ 0
IsLinked bytes page ((q, es) ∷ ls) =
    (page ≡ q) × ((1 ≤ q) × ((next : ℕ) × HoldsLeaf bytes q es next × IsLinked bytes next ls))
