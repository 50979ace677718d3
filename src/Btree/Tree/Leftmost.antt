-- ===== src/Btree/Tree/Leftmost.antt =====
-- `leftmost_leaf` in a tree of pages.
use bsondb.Common.{
  ℕ, zero, suc, ◌+◌, ◌<◌, ◌≡◌, refl, ap, ◌∙◌, List, [], ◌∷◌, ◌++◌, true, append_assoc, arith,
}
use bsondb.Bson.Result.{ok}
use bsondb.Mmap.{MmapFile, Outcome}
use bsondb.Btree.Leaf.{Entry, HoldsLeaf, page_type-leaf}
use bsondb.Btree.Internal.{Kid, HoldsInternal, page_type-internal, page_link-internal}
use bsondb.Btree.Search.{leftmost_loop}
use bsondb.Btree.Tree.{
  Tree, leaf, branch, page_of, kids, leaves, forest_leaves, depth, forest_depth, HoldsTree,
}
use bsondb.Btree.Tree.Descent.{Lands}

module _ (file : MmapFile) (mapped : file.mapped ≡ true) (P : Entry → Type 0) where
  abbrev run_left : ℕ → ℕ → Outcome ℕ
  run_left page fuel = leftmost_loop fuel page file

  stay_at :
      (page next : ℕ) (es : List Entry)
      → HoldsLeaf file.bytes page es next
      → (fuel : ℕ) → 0 < fuel
      → run_left page fuel ≡ (ok page, file)
  unfolding leftmost_loop
  stay_at page next es h zero some = absurd (omega (arith, some))
  stay_at page next es h (suc fuel) some = rw (page_type-leaf file mapped page next es h)

  step_left :
      (page leftmost : ℕ) (ks : List Kid)
      → HoldsInternal file.bytes page leftmost ks
      → (fuel : ℕ) → run_left page (suc fuel) ≡ run_left leftmost fuel
  unfolding leftmost_loop
  step_left page leftmost ks h fuel = rw (
    page_type-internal file mapped page leftmost ks h,
    page_link-internal file mapped page leftmost ks h,
  )

  -- It ends at the first leaf of the tree.
  pub Lands-leftmost :
      (t : Tree) → HoldsTree file.bytes t → Lands P (leaves t) (run_left (page_of t)) file (depth t)
  unfolding leaves depth HoldsTree
  Lands-leftmost (leaf page es) (next, h) = record {
    page = page;
    es = es;
    before = [];
    after = [];
    split = refl;
    below = tt;
    found = stay_at page next es h;
  }
  Lands-leftmost (branch page t f) (h, (ht, hf)) =
      let l = Lands-leftmost t ht in
      record {
        page = l.page;
        es = l.es;
        before = l.before;
        after = l.after ++ forest_leaves f;
        split =
            ap (λ x. x ++ forest_leaves f) l.split
            ∙ append_assoc l.before ((l.page, l.es) ∷ l.after) (forest_leaves f);
        below = l.below;
        found = again l.page l.found;
      }
    where
      again :
          (end : ℕ)
          → ((fuel : ℕ) → depth t < fuel → run_left (page_of t) fuel ≡ (ok end, file))
          → (fuel : ℕ) → suc (depth t + forest_depth f) < fuel
          → run_left page fuel ≡ (ok end, file)
      again end found zero less = absurd (omega (arith, less))
      again end found (suc fuel) less =
          step_left page (page_of t) (kids f) h fuel ∙ found fuel (omega (arith, less))
