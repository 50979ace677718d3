-- ===== src/Btree/Index/Lookup.antt =====
-- A lookup finds exactly the live entries of its key.
use bsondb.Common.{ℕ, ◌≤◌, ◌≡◌, List, ◌∷◌, Bool, true, false, arith}
use bsondb.Mmap.{MmapFile}
use bsondb.Btree.Key.Rank.{IsKey, rank}
use bsondb.Btree.Leaf.{Entry, IsEntry}
use bsondb.Btree.Offsets.{OffsetList}
use bsondb.Btree.Chain.{push_all}
use bsondb.Btree.Chain.Lookup.{is_past, is_hit, lookup_in_chain_lem}
use bsondb.Btree.Order.{equal_iff, greater_iff}
use bsondb.Btree.Search.{rounds, descend_loop, descend_to_leaf, btree_lookup}
use bsondb.Btree.Tree.{Tree, page_of, leaves, depth, contents, IsBelow}
use bsondb.Btree.Tree.Descent.{Lands, lands}
use bsondb.Btree.Index.{HoldsIndex, matches, offsets_of}
use bsondb.Btree.Index.Descended.{
  depth-size, lists, hits-agree, many_rounds, current_root-HoldsIndex, chained, enough_rounds,
  found_all,
}

module _ (key : List ℕ) (key_ok : IsKey key) where
  pub is_hit_lem : (e : Entry) → IsEntry e → is_hit key e ≡ matches key e
  is_hit_lem e h = ground (arith, equal_iff e.key key h.key key_ok)

  pub no_hit-past :
      (e f : Entry)
      → IsEntry e
      → IsEntry f
      → rank e.key ≤ rank f.key
      → is_past key e ≡ true
      → is_hit key f ≡ false
  no_hit-past e f he hf le p =
      ground (arith, le, p, greater_iff e.key key he.key key_ok, equal_iff f.key key hf.key key_ok)

  pub no_hit-below : (e : Entry) → IsEntry e × IsBelow key e → is_hit key e ≡ false
  no_hit-below e (h, (le, lt)) = ground (arith, lt, equal_iff e.key key h.key key_ok)

module _ (can_alloc : ℕ → Bool) (file : MmapFile) (t : Tree) (h : HoldsIndex file t) (key : List ℕ)
    (key_ok : IsKey key) where
  pub btree_lookup_lem :
      (out : OffsetList)
      → btree_lookup can_alloc key out file
        ≡ (push_all can_alloc out (offsets_of key (contents (leaves t))), file)
  unfolding btree_lookup descend_to_leaf
  btree_lookup_lem out =
      let run = λ (fuel : ℕ). descend_loop fuel (page_of t) key file in
      let l : Lands (IsBelow key) (leaves t) run file (depth t) =
        lands file h.mapped key key_ok t h.pages h.split in
      rw (
        current_root-HoldsIndex file t h,
        l.found (rounds file) (omega (arith, depth-size t, many_rounds file t h)),
        lookup_in_chain_lem can_alloc file h.mapped key (l.es ∷ lists l.after) (rounds file) l.page
            out (chained file t h (IsBelow key) run (depth t) l)
            (enough_rounds file t h (IsBelow key) run (depth t) l),
        found_all file t h (IsBelow key) run (depth t) l (is_past key) (is_hit key)
            (no_hit-past key key_ok) (no_hit-below key key_ok),
        hits-agree (is_hit key) (matches key) (is_hit_lem key key_ok) (contents (leaves t))
            h.entries,
      )
