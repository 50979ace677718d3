-- ===== src/Btree/Index/Range.antt =====
-- A range finds exactly the live entries between its bounds.
use bsondb.Common.{ℕ, ◌≤◌, ◌≡◌, refl, List, ◌∷◌, Bool, true, false, Option, none, some, not, arith}
use bsondb.Mmap.{MmapFile, Outcome}
use bsondb.Btree.Key.Rank.{IsKey, rank}
use bsondb.Btree.Layout.{is_live}
use bsondb.Btree.Leaf.{Entry, IsEntry}
use bsondb.Btree.Offsets.{OffsetList}
use bsondb.Btree.Chain.{push_all}
use bsondb.Btree.Chain.Range.{ends_range, in_range, range_in_chain_lem}
use bsondb.Btree.Order.{less_iff, equal_iff, greater_iff}
use bsondb.Btree.Range.{Bounds, below_low, above_high, first_leaf, btree_range}
use bsondb.Btree.Search.{rounds, descend_loop, leftmost_loop, descend_to_leaf, leftmost_leaf}
use bsondb.Btree.Tree.{Tree, page_of, leaves, depth, contents, IsBelow}
use bsondb.Btree.Tree.Descent.{Lands, lands}
use bsondb.Btree.Tree.Leftmost.{Lands-leftmost}
use bsondb.Btree.Index.{HoldsIndex, over, under, lies_in, offsets_in}
use bsondb.Btree.Index.Descended.{
  depth-size, lists, hits-agree, many_rounds, current_root-HoldsIndex, chained, enough_rounds,
  found_all,
}

-- A bound is absent or a key.
abbrev pub IsBound : Option (List ℕ) → Type 0
IsBound none = Unit
IsBound (some key) = IsKey key

below_low_lem :
    (low : Option (List ℕ)) (inclusive : Bool) (key : List ℕ)
    → IsBound low
    → IsKey key
    → below_low low inclusive key ≡ not (over low inclusive (rank key))
below_low_lem none inclusive key hl hk = refl
below_low_lem (some low) inclusive key hl hk =
    ground (arith, less_iff key low hk hl, equal_iff key low hk hl)

above_high_lem :
    (high : Option (List ℕ)) (inclusive : Bool) (key : List ℕ)
    → IsBound high
    → IsKey key
    → above_high high inclusive key ≡ not (under high inclusive (rank key))
above_high_lem none inclusive key hh hk = refl
above_high_lem (some high) inclusive key hh hk =
    ground (arith, greater_iff key high hk hh, equal_iff key high hk hh)

-- What is above the high bound stays above it.
under_down :
    (high : Option (List ℕ)) (inclusive : Bool) (m n : ℕ)
    → m ≤ n
    → under high inclusive m ≡ false
    → under high inclusive n ≡ false
under_down none inclusive m n le u = u
under_down (some high) inclusive m n le u = ground (arith, le, u)

module _ (b : Bounds) (low_ok : IsBound b.low) (high_ok : IsBound b.high) where
  in_range_lem : (e : Entry) → IsEntry e → in_range b e ≡ lies_in b e
  in_range_lem e h = ground (
    arith,
    below_low_lem b.low b.low_inclusive e.key low_ok h.key,
    above_high_lem b.high b.high_inclusive e.key high_ok h.key,
  )

  none_in-past :
      (e f : Entry)
      → IsEntry e
      → IsEntry f
      → rank e.key ≤ rank f.key
      → ends_range b e ≡ true
      → in_range b f ≡ false
  none_in-past e f he hf le p = ground (
    arith,
    p,
    above_high_lem b.high b.high_inclusive e.key high_ok he.key,
    above_high_lem b.high b.high_inclusive f.key high_ok hf.key,
    under_down b.high b.high_inclusive (rank e.key) (rank f.key) le,
  )

-- The entries left of the leaf where the walk begins are not above the low bound, if there is one.
abbrev IsLeft : Option (List ℕ) → Entry → Type 0
IsLeft none e = ⊥
IsLeft (some low) e = IsBelow low e

left_below :
    (low : Option (List ℕ)) (inclusive : Bool) (e : Entry)
    → IsBound low
    → IsEntry e
    → IsLeft low e
    → is_live e.flags ≡ true
    → below_low low inclusive e.key ≡ true
left_below none inclusive e low_ok h l live = absurd l
left_below (some low) inclusive e low_ok h (le, lt) live =
    rw ((less_iff e.key low h.key low_ok).1 (lt live))

none_in-left :
    (b : Bounds) → IsBound b.low → (e : Entry) → IsEntry e × IsLeft b.low e → in_range b e ≡ false
none_in-left b low_ok e (h, l) = ground (arith, left_below b.low b.low_inclusive e low_ok h l)

module _ (file : MmapFile) (t : Tree) (h : HoldsIndex file t) where
  abbrev start : Option (List ℕ) → ℕ → Outcome ℕ
  start none fuel = leftmost_loop fuel (page_of t) file
  start (some low) fuel = descend_loop fuel (page_of t) low file

  starts : (low : Option (List ℕ)) → first_leaf low (page_of t) file ≡ start low (rounds file)
  unfolding first_leaf leftmost_leaf descend_to_leaf
  starts none = refl
  starts (some low) = refl

  Lands-start :
      (low : Option (List ℕ))
      → IsBound low
      → Lands (IsLeft low) (leaves t) (start low) file (depth t)
  Lands-start none low_ok = Lands-leftmost file h.mapped (IsLeft none) t h.pages
  Lands-start (some low) low_ok = lands file h.mapped low low_ok t h.pages h.split

  module _ (can_alloc : ℕ → Bool) (b : Bounds) (low_ok : IsBound b.low)
      (high_ok : IsBound b.high) where
    pub btree_range_lem :
        (out : OffsetList)
        → btree_range can_alloc b out file
          ≡ (push_all can_alloc out (offsets_in b (contents (leaves t))), file)
    unfolding btree_range
    btree_range_lem out =
        let l = Lands-start b.low low_ok in
        rw (
          current_root-HoldsIndex file t h,
          starts b.low,
          l.found (rounds file) (omega (arith, depth-size t, many_rounds file t h)),
          range_in_chain_lem can_alloc file h.mapped b (l.es ∷ lists l.after) (rounds file) l.page
              out (chained file t h (IsLeft b.low) (start b.low) (depth t) l)
              (enough_rounds file t h (IsLeft b.low) (start b.low) (depth t) l),
          found_all file t h (IsLeft b.low) (start b.low) (depth t) l (ends_range b) (in_range b)
              (none_in-past b low_ok high_ok) (none_in-left b low_ok),
          hits-agree (in_range b) (lies_in b) (in_range_lem b low_ok high_ok) (contents (leaves t))
              h.entries,
        )
