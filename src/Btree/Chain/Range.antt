-- ===== src/Btree/Chain/Range.antt =====
-- `bson_btree_range` along a chain of leaves.
use bsondb.Common.{
  ℕ, zero, suc, ◌+◌, ◌<◌, ◌≡◌, refl, sym, ap, ◌∙◌, inl, inr, List, [], ◌∷◌, ◌++◌, Bool, true, ◌&&◌,
  not, if◌then◌else◌, length, append_assoc, length-append, Bool-cases, arith,
}
use bsondb.Mmap.{MmapFile}
use bsondb.Btree.Layout.{is_live}
use bsondb.Btree.Leaf.{
  Entry, HoldsLeaf, page_entries-leaf, page_link-leaf, peek_key, read_offset_there,
  read_flags_there,
}
use bsondb.Btree.Offsets.{OffsetList, offset_list_push}
use bsondb.Btree.Chain.{
  not_zero, Chain, hits_before, stops, chain_hits, push_all, push_all-append, with_flag, after_push,
  after_leaf,
}
use bsondb.Btree.Range.{Bounds, below_low, above_high, range_in_leaf, range_in_chain}

-- A range skips what is below its low bound, stops at the first entry that is above its high bound, and
-- collects the live entries between them.
abbrev pub is_below : Bounds → Entry → Bool
is_below b e = below_low b.low b.low_inclusive e.key

abbrev pub is_above : Bounds → Entry → Bool
is_above b e = above_high b.high b.high_inclusive e.key

abbrev pub ends_range : Bounds → Entry → Bool
ends_range b e = not (is_below b e) && is_above b e

abbrev pub in_range : Bounds → Entry → Bool
in_range b e = not (is_below b e) && (not (is_above b e) && is_live e.flags)

module _ (can_alloc : ℕ → Bool) (file : MmapFile) (mapped : file.mapped ≡ true) (b : Bounds) where
  module _ (page next : ℕ) (es : List Entry) (h : HoldsLeaf file.bytes page es next) where
    range_in_leaf_lem :
        (ys xs : List Entry) (out : OffsetList)
        → es ≡ xs ++ ys
        → range_in_leaf can_alloc (length ys) page (length xs) b out file ≡ (
          with_flag can_alloc
              (stops (ends_range b) (in_range b) ys)
              (push_all can_alloc out (hits_before (ends_range b) (in_range b) ys)),
          file,
        )
    unfolding range_in_leaf
    range_in_leaf_lem [] xs out split = refl
    range_in_leaf_lem (e ∷ ys) xs out split =
        let next_index : length (xs ++ e ∷ []) ≡ length xs + 1 =
          omega (arith, length-append xs (e ∷ [])) in
        let again = λ (o : OffsetList).
          ap (λ (k : ℕ). range_in_leaf can_alloc (length ys) page k b o file) (sym next_index)
          ∙ range_in_leaf_lem ys (xs ++ e ∷ []) o (split ∙ sym (append_assoc xs (e ∷ []) ys)) in
        let key_there = peek_key file mapped page next es h xs e ys split in
        let flags_there = read_flags_there file mapped page next es h xs e ys split in
        elim (Bool-cases (is_below b e)) [
          | inl below ↦ rw (key_there, below) (again out)
          | inr not_below ↦ elim (Bool-cases (is_above b e)) [
            | inl above ↦ rw (key_there, not_below, above)
            | inr not_above ↦ elim (Bool-cases (is_live e.flags)) [
              | inl live ↦
                  rw
                    (
                      key_there,
                      not_below,
                      not_above,
                      flags_there,
                      live,
                      read_offset_there file mapped page next es h xs e ys split,
                    )
                    (after_push can_alloc file (offset_list_push can_alloc out e.offset)
                      (λ o. range_in_leaf can_alloc (length ys) page (length xs + 1) b o)
                      (stops (ends_range b) (in_range b) ys)
                      (hits_before (ends_range b) (in_range b) ys) again)
              | inr dead ↦ rw (key_there, not_below, not_above, flags_there, dead) (again out)
            ]
          ]
        ]

  -- Along a chain of leaves a range collects what lies in it up to the first entry above it.
  pub range_in_chain_lem :
      (ess : List (List Entry)) (fuel leaf : ℕ) (out : OffsetList)
      → Chain file.bytes leaf ess
      → length ess < fuel
      → range_in_chain can_alloc fuel leaf b out file
        ≡ (push_all can_alloc out (chain_hits (ends_range b) (in_range b) ess), file)
  unfolding range_in_chain
  range_in_chain_lem ess zero leaf out c enough = absurd (omega (arith, enough))
  range_in_chain_lem [] (suc fuel) leaf out c enough = rw c
  range_in_chain_lem (es ∷ ess) (suc fuel) leaf out (here, (next, h, c)) enough =
      rw
        (
          not_zero leaf here,
          page_entries-leaf file mapped leaf next es h,
          range_in_leaf_lem leaf next es h es [] out refl,
        )
        (after_leaf can_alloc file
            (push_all can_alloc out (hits_before (ends_range b) (in_range b) es))
            (λ k o. range_in_chain can_alloc fuel k b o) leaf next
            (stops (ends_range b) (in_range b) es) (chain_hits (ends_range b) (in_range b) ess)
            (page_link-leaf file mapped leaf next es h)
            (λ o. range_in_chain_lem ess fuel next o c (omega (arith, enough)))
          ∙ ap (λ r. (r, file))
              (sym (
                push_all-append can_alloc out (hits_before (ends_range b) (in_range b) es) (
                  if stops (ends_range b) (in_range b) es
                  then []
                  else chain_hits (ends_range b) (in_range b) ess))))
