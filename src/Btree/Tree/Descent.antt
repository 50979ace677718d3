-- ===== src/Btree/Tree/Descent.antt =====
-- `descend_to_leaf` in a tree of pages.
use bsondb.Common.{
  ℕ, zero, suc, ◌+◌, ◌≤◌, ◌<◌, ◌≡◌, refl, sym, ap, subst, ◌∙◌, inl, inr, List, [], ◌∷◌, ◌++◌, true,
  false, if◌then◌else◌, All, All-append, append_assoc, append-nil, Bool-cases, arith,
}
use bsondb.Bson.Result.{ok}
use bsondb.Mmap.{MmapFile, Outcome}
use bsondb.Btree.Key.{key_cmp}
use bsondb.Btree.Key.Rank.{IsKey, rank}
use bsondb.Btree.Leaf.{Entry, HoldsLeaf, All-split, page_type-leaf}
use bsondb.Btree.Internal.{
  Kid, HoldsInternal, choose, page_type-internal, page_entries-internal, page_link-internal,
  find_child_lem,
}
use bsondb.Btree.Order.{less_iff}
use bsondb.Btree.Search.{is_less, descend_loop}
use bsondb.Btree.Tree.{
  Tree, leaf, branch, Forest, done, kid, page_of, kids, Leaves, leaves, forest_leaves, depth,
  forest_depth, contents, contents-append, IsBelow, HoldsTree, HoldsForest, IsSplit, IsForestSplit,
}

-- The leaf where the descent ends: `P` holds of the entries left of it.
pub record Lands (P : Entry → Type 0) (ls : Leaves) (run : ℕ → Outcome ℕ) (file : MmapFile)
    (bound : ℕ) : Type 0 where
  pub page : ℕ
  pub es : List Entry
  pub before : Leaves
  pub after : Leaves
  pub split : ls ≡ before ++ (page, es) ∷ after
  pub below : All P (contents before)
  pub found : (fuel : ℕ) → bound < fuel → run fuel ≡ (ok page, file)

IsBelow-All :
    (k key : List ℕ) (es : List Entry)
    → rank k ≤ rank key
    → All (IsBelow k) es
    → All (IsBelow key) es
IsBelow-All k key [] h b = tt
IsBelow-All k key (e ∷ es) h ((le, lt), bs) =
    ((omega (arith, le, h), λ live. omega (arith, lt live, h)), IsBelow-All k key es h bs)

module _ (file : MmapFile) (mapped : file.mapped ≡ true) (key : List ℕ) (key_ok : IsKey key) where
  abbrev run_at : ℕ → ℕ → Outcome ℕ
  run_at page fuel = descend_loop fuel page key file

  pub at_leaf :
      (page next : ℕ) (es : List Entry)
      → HoldsLeaf file.bytes page es next
      → (fuel : ℕ) → 0 < fuel
      → run_at page fuel ≡ (ok page, file)
  unfolding descend_loop
  at_leaf page next es h zero some = absurd (omega (arith, some))
  at_leaf page next es h (suc fuel) some = rw (page_type-leaf file mapped page next es h)

  pub at_branch :
      (page leftmost : ℕ) (ks : List Kid)
      → HoldsInternal file.bytes page leftmost ks
      → (fuel : ℕ) → run_at page (suc fuel) ≡ run_at (choose key 0 leftmost ks).1 fuel
  unfolding descend_loop
  at_branch page leftmost ks h fuel = rw (
    page_type-internal file mapped page leftmost ks h,
    page_entries-internal file mapped page leftmost ks h,
    page_link-internal file mapped page leftmost ks h,
    find_child_lem file mapped page leftmost ks h ks [] leftmost key refl,
  )

  under_branch :
      (page leftmost n : ℕ) (ks : List Kid)
      → HoldsInternal file.bytes page leftmost ks
      → (ls : Leaves) → Lands (IsBelow key) ls (run_at (choose key 0 leftmost ks).1) file n
      → Lands (IsBelow key) ls (run_at page) file (suc n)
  under_branch page leftmost n ks h ls l = record {
    page = l.page;
    es = l.es;
    before = l.before;
    after = l.after;
    split = l.split;
    below = l.below;
    found = again;
  }
    where
      again : (fuel : ℕ) → suc n < fuel → run_at page fuel ≡ (ok l.page, file)
      again zero less = absurd (omega (arith, less))
      again (suc fuel) less = at_branch page leftmost ks h fuel ∙ l.found fuel (omega (arith, less))

  not_less-le : (k : List ℕ) → IsKey k → is_less (key_cmp key k) ≡ false → rank k ≤ rank key
  not_less-le k k_ok e = ground (arith, less_iff key k key_ok k_ok)

  mutual
    unfolding leaves depth HoldsTree IsSplit

    pub lands :
        (t : Tree)
        → HoldsTree file.bytes t
        → IsSplit t
        → Lands (IsBelow key) (leaves t) (run_at (page_of t)) file (depth t)
    lands (leaf page es) (next, h) s = record {
      page = page;
      es = es;
      before = [];
      after = [];
      split = refl;
      below = tt;
      found = at_leaf page next es h;
    }
    lands (branch page t f) (h, (ht, hf)) (st, sf) =
        under_branch page (page_of t) (depth t + forest_depth f) (kids f) h
          (leaves t ++ forest_leaves f)
          (Lands-in f t (contents (leaves t)) [] 0 (lands t ht st) hf refl sf)

    Lands-in :
        (f : Forest) (t : Tree) (left acc : List Entry) (i : ℕ)
        → Lands (IsBelow key) (leaves t) (run_at (page_of t)) file (depth t)
        → HoldsForest file.bytes f
        → left ≡ acc ++ contents (leaves t)
        → IsForestSplit left f
        → Lands
            (IsBelow key)
            (leaves t ++ forest_leaves f)
            (run_at (choose key i (page_of t) (kids f)).1)
            file
            (depth t + forest_depth f)
    Lands-in done t left acc i l hf e s = record {
      page = l.page;
      es = l.es;
      before = l.before;
      after = l.after;
      split = append-nil (leaves t) ∙ l.split;
      below = l.below;
      found = λ fuel less. l.found fuel (omega (arith, less));
    }
    Lands-in (kid k u f) t left acc i l (hu, hf) e (k_ok, (b, (a, (su, sf)))) =
        elim (Bool-cases (is_less (key_cmp key k))) [
          | inl less ↦ record {
            page = l.page;
            es = l.es;
            before = l.before;
            after = l.after ++ (leaves u ++ forest_leaves f);
            split =
                ap (λ x. x ++ (leaves u ++ forest_leaves f)) l.split
                ∙ append_assoc l.before ((l.page, l.es) ∷ l.after) (leaves u ++ forest_leaves f);
            below = l.below;
            found = λ fuel bound.
                ap
                  (λ x.
                    run_at (if x then (i, page_of t) else choose key (i + 1) (page_of u) (kids f)).1
                      fuel)
                  less
                ∙ l.found fuel (omega (arith, bound));
          }
          | inr not_less ↦
              let r =
                Lands-in f u (left ++ contents (leaves u)) left (i + 1) (lands u hu su) hf refl
                  sf in
              record {
                page = r.page;
                es = r.es;
                before = leaves t ++ r.before;
                after = r.after;
                split =
                    ap (λ x. leaves t ++ x) r.split
                    ∙ sym (append_assoc (leaves t) r.before ((r.page, r.es) ∷ r.after));
                below = subst (All (IsBelow key)) (sym (contents-append (leaves t) r.before)) (
                    All-append (IsBelow key) (contents (leaves t)) (contents r.before)
                      (IsBelow-All k key (contents (leaves t)) (not_less-le k k_ok not_less)
                        (All-split (IsBelow k) acc (contents (leaves t))
                          (subst (All (IsBelow k)) e b)).1)
                      r.below);
                found = λ fuel bound.
                    ap
                      (λ x.
                        run_at
                          (if x then (i, page_of t) else choose key (i + 1) (page_of u) (kids f)).1
                          fuel)
                      not_less
                    ∙ r.found fuel (omega (arith, bound));
              }
        ]
