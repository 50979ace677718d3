-- ===== src/Btree/Index/Unique.antt =====
-- `bson_btree_insert` of a key that a unique index has.
use bsondb.Common.{
  ℕ, zero, suc, ◌+◌, ◌≡◌, refl, sym, ap, subst, ◌∙◌, inl, inr, List, [], ◌∷◌, Bool, true,
  if◌then◌else◌, Bool-cases, arith,
}
use bsondb.Bson.Result.{ok, err, fault, stuck, duplicate_key}
use bsondb.Mmap.{MmapFile, Os, Outcome}
use bsondb.Btree.Key.{key_cmp}
use bsondb.Btree.Key.Rank.{IsKey}
use bsondb.Btree.Layout.{btree_unique}
use bsondb.Btree.Leaf.{Entry, HoldsLeaf, page_type-leaf}
use bsondb.Btree.Internal.{
  Kid, HoldsInternal, choose, page_type-internal, page_entries-internal, page_link-internal,
  find_child_lem,
}
use bsondb.Btree.Chain.Lookup.{is_past, is_hit}
use bsondb.Btree.Chain.Live.{nonempty, live_in_chain_lem}
use bsondb.Btree.Search.{is_less, rounds, descend_loop, key_has_live_entry}
use bsondb.Btree.Insert.{insert_at_leaf, insert_recursive, btree_insert}
use bsondb.Btree.Tree.{
  Tree, leaf, branch, Forest, done, kid, page_of, kids, leaves, depth, contents, IsBelow, HoldsTree,
  HoldsForest,
}
use bsondb.Btree.Tree.Descent.{Lands, lands, at_leaf, at_branch}
use bsondb.Btree.Index.{HoldsIndex, matches, offsets_of}
use bsondb.Btree.Index.Lookup.{is_hit_lem, no_hit-past, no_hit-below}
use bsondb.Btree.Index.Descended.{
  depth-size, lists, hits-agree, many_rounds, current_root-HoldsIndex, chained, enough_rounds,
  found_all,
}

-- One more than the page of a descent that ends.
abbrev page_or : Outcome ℕ → ℕ
page_or (ok page, file) = suc page
page_or (err s, file) = 0
page_or (fault, file) = 0
page_or (stuck, file) = 0

module _ (os : Os) (file : MmapFile) (mapped : file.mapped ≡ true) (key : List ℕ)
    (key_ok : IsKey key) (offset : ℕ) where
  -- The insert below page `page` fails where the leaf of the descent has the key.
  abbrev Refuses : ℕ → ℕ → Type 0
  Refuses end page =
      (fuel : ℕ)
      → descend_loop fuel page key file ≡ (ok end, file)
      → insert_recursive os fuel page key offset true file ≡ (err duplicate_key, file)

  module _ (end : ℕ) (taken : key_has_live_entry end key file ≡ (ok true, file)) where
    Refuses-leaf :
        (page next : ℕ) (es : List Entry) → HoldsLeaf file.bytes page es next → Refuses end page
    unfolding descend_loop insert_recursive insert_at_leaf
    Refuses-leaf page next es h zero e = absurd (omega (arith, ap page_or e))
    Refuses-leaf page next es h (suc fuel) e =
        let here : page ≡ end = omega (
          arith,
          ap page_or
              (sym (at_leaf file mapped key key_ok page next es h (suc fuel) (omega arith)) ∙ e),
        ) in
        rw (
          page_type-leaf file mapped page next es h,
          subst (λ (p : ℕ). key_has_live_entry p key file ≡ (ok true, file)) (sym here) taken,
        )

    Refuses-branch :
        (page leftmost : ℕ) (ks : List Kid)
        → HoldsInternal file.bytes page leftmost ks
        → Refuses end (choose key 0 leftmost ks).1
        → Refuses end page
    unfolding descend_loop insert_recursive
    Refuses-branch page leftmost ks h r zero e = absurd (omega (arith, ap page_or e))
    Refuses-branch page leftmost ks h r (suc fuel) e = rw (
      page_type-internal file mapped page leftmost ks h,
      page_entries-internal file mapped page leftmost ks h,
      page_link-internal file mapped page leftmost ks h,
      find_child_lem file mapped page leftmost ks h ks [] leftmost key refl,
      r fuel (sym (at_branch file mapped key key_ok page leftmost ks h fuel) ∙ e),
    )

    mutual
      unfolding HoldsTree

      refuses : (t : Tree) → HoldsTree file.bytes t → Refuses end (page_of t)
      refuses (leaf page es) (next, h) = Refuses-leaf page next es h
      refuses (branch page t f) (h, (ht, hf)) =
          Refuses-branch page (page_of t) (kids f) h (Refuses-in f t 0 (refuses t ht) hf)

      Refuses-in :
          (f : Forest) (t : Tree) (i : ℕ)
          → Refuses end (page_of t)
          → HoldsForest file.bytes f
          → Refuses end (choose key i (page_of t) (kids f)).1
      Refuses-in done t i r hf = r
      Refuses-in (kid k u f) t i r (hu, hf) = elim (Bool-cases (is_less (key_cmp key k))) [
        | inl less ↦
            subst (Refuses end)
              (sym (
                ap
                  (λ (x : Bool).
                    (if x then (i, page_of t) else choose key (i + 1) (page_of u) (kids f)).1)
                  less))
              r
        | inr not_less ↦
            subst (Refuses end)
              (sym (
                ap
                  (λ (x : Bool).
                    (if x then (i, page_of t) else choose key (i + 1) (page_of u) (kids f)).1)
                  not_less))
              (Refuses-in f u (i + 1) (refuses u hu) hf)
      ]

module _ (file : MmapFile) (t : Tree) (h : HoldsIndex file t) (key : List ℕ)
    (key_ok : IsKey key) where
  abbrev descent_of : ℕ → Outcome ℕ
  descent_of fuel = descend_loop fuel (page_of t) key file

  landing : Lands (IsBelow key) (leaves t) descent_of file (depth t)
  landing = lands file h.mapped key key_ok t h.pages h.split

  -- From the leaf of the descent on, the test tells whether the index has a live entry of the key.
  key_has_live_entry_lem :
      key_has_live_entry landing.page key file
      ≡ (ok (nonempty (offsets_of key (contents (leaves t)))), file)
  unfolding key_has_live_entry
  key_has_live_entry_lem = rw (
    live_in_chain_lem file h.mapped key (landing.es ∷ lists landing.after) (rounds file)
        landing.page (chained file t h (IsBelow key) descent_of (depth t) landing)
        (enough_rounds file t h (IsBelow key) descent_of (depth t) landing),
    found_all file t h (IsBelow key) descent_of (depth t) landing (is_past key) (is_hit key)
        (no_hit-past key key_ok) (no_hit-below key key_ok),
    hits-agree (is_hit key) (matches key) (is_hit_lem key key_ok) (contents (leaves t)) h.entries,
  )

  pub btree_insert-duplicate :
      (os : Os) (offset : ℕ)
      → btree_unique file ≡ (ok true, file)
      → nonempty (offsets_of key (contents (leaves t))) ≡ true
      → btree_insert os key offset file ≡ (err duplicate_key, file)
  unfolding btree_insert
  btree_insert-duplicate os offset unique some = rw (
    current_root-HoldsIndex file t h,
    unique,
    refuses os file h.mapped key key_ok offset landing.page
        (key_has_live_entry_lem ∙ ap (λ (b : Bool). (ok b, file)) some) t h.pages (rounds file)
        (landing.found (rounds file) (omega (arith, depth-size t, many_rounds file t h))),
  )
