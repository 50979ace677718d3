-- ===== src/Btree/Chain/Lookup.antt =====
-- `bson_btree_lookup` along a chain of leaves.
use bsondb.Common.{
  ℕ, zero, suc, ◌+◌, ◌<◌, ◌≡◌, refl, sym, ap, ◌∙◌, inl, inr, List, [], ◌∷◌, ◌++◌, Bool, true, false,
  ◌&&◌, if◌then◌else◌, length, append_assoc, length-append, Bool-cases, arith,
}
use bsondb.Bson.Result.{ok}
use bsondb.Mmap.{MmapFile}
use bsondb.Btree.Key.{key_cmp}
use bsondb.Btree.Layout.{is_live, leaf_entry_off}
use bsondb.Btree.Leaf.{
  Entry, HoldsLeaf, page_entries-leaf, page_link-leaf, peek_key, read_offset_there,
  read_flags_there,
}
use bsondb.Btree.Offsets.{OffsetList, offset_list_push}
use bsondb.Btree.Chain.{
  not_zero, Chain, hits_before, stops, chain_hits, push_all, push_all-append, with_flag, after_push,
  after_leaf,
}
use bsondb.Btree.Search.{is_equal, is_greater, live_where, lookup_in_leaf, lookup_in_chain}

-- A lookup stops at a greater key and collects the live entries of its own.
abbrev pub is_past : List ℕ → Entry → Bool
is_past key e = is_greater (key_cmp e.key key)

abbrev pub is_hit : List ℕ → Entry → Bool
is_hit key e = is_equal (key_cmp e.key key) && is_live e.flags

module _ (can_alloc : ℕ → Bool) (file : MmapFile) (mapped : file.mapped ≡ true) (key : List ℕ) where
  module _ (page next : ℕ) (es : List Entry) (h : HoldsLeaf file.bytes page es next) where
    pub live_where-there :
        (c : Bool) (xs ys : List Entry) (e : Entry)
        → es ≡ xs ++ e ∷ ys
        → live_where c (leaf_entry_off page (length xs)) file ≡ (ok (c && is_live e.flags), file)
    live_where-there false xs ys e split = refl
    live_where-there true xs ys e split =
        rw (read_flags_there file mapped page next es h xs e ys split)

    lookup_in_leaf_lem :
        (ys xs : List Entry) (out : OffsetList)
        → es ≡ xs ++ ys
        → lookup_in_leaf can_alloc (length ys) page (length xs) key out file ≡ (
          with_flag can_alloc
              (stops (is_past key) (is_hit key) ys)
              (push_all can_alloc out (hits_before (is_past key) (is_hit key) ys)),
          file,
        )
    unfolding lookup_in_leaf
    lookup_in_leaf_lem [] xs out split = refl
    lookup_in_leaf_lem (e ∷ ys) xs out split =
        let next_index : length (xs ++ e ∷ []) ≡ length xs + 1 =
          omega (arith, length-append xs (e ∷ [])) in
        let again = λ (o : OffsetList).
          ap (λ (k : ℕ). lookup_in_leaf can_alloc (length ys) page k key o file) (sym next_index)
          ∙ lookup_in_leaf_lem ys (xs ++ e ∷ []) o (split ∙ sym (append_assoc xs (e ∷ []) ys)) in
        elim (Bool-cases (is_past key e)) [
          | inl past ↦ rw (peek_key file mapped page next es h xs e ys split, past)
          | inr not_past ↦ elim (Bool-cases (is_hit key e)) [
            | inl hit ↦
                rw
                  (
                    peek_key file mapped page next es h xs e ys split,
                    not_past,
                    live_where-there (is_equal (key_cmp e.key key)) xs ys e split,
                    hit,
                    read_offset_there file mapped page next es h xs e ys split,
                  )
                  (after_push can_alloc file (offset_list_push can_alloc out e.offset)
                    (λ o. lookup_in_leaf can_alloc (length ys) page (length xs + 1) key o)
                    (stops (is_past key) (is_hit key) ys)
                    (hits_before (is_past key) (is_hit key) ys) again)
            | inr miss ↦
                rw
                  (
                    peek_key file mapped page next es h xs e ys split,
                    not_past,
                    live_where-there (is_equal (key_cmp e.key key)) xs ys e split,
                    miss,
                  )
                  (again out)
          ]
        ]

  -- Along a chain of leaves a lookup collects the hits up to the first greater key.
  pub lookup_in_chain_lem :
      (ess : List (List Entry)) (fuel leaf : ℕ) (out : OffsetList)
      → Chain file.bytes leaf ess
      → length ess < fuel
      → lookup_in_chain can_alloc fuel leaf key out file
        ≡ (push_all can_alloc out (chain_hits (is_past key) (is_hit key) ess), file)
  unfolding lookup_in_chain
  lookup_in_chain_lem ess zero leaf out c enough = absurd (omega (arith, enough))
  lookup_in_chain_lem [] (suc fuel) leaf out c enough = rw c
  lookup_in_chain_lem (es ∷ ess) (suc fuel) leaf out (here, (next, h, c)) enough =
      rw
        (
          not_zero leaf here,
          page_entries-leaf file mapped leaf next es h,
          lookup_in_leaf_lem leaf next es h es [] out refl,
        )
        (after_leaf can_alloc file
            (push_all can_alloc out (hits_before (is_past key) (is_hit key) es))
            (λ k o. lookup_in_chain can_alloc fuel k key o) leaf next
            (stops (is_past key) (is_hit key) es) (chain_hits (is_past key) (is_hit key) ess)
            (page_link-leaf file mapped leaf next es h)
            (λ o. lookup_in_chain_lem ess fuel next o c (omega (arith, enough)))
          ∙ ap (λ r. (r, file))
              (sym (
                push_all-append can_alloc out (hits_before (is_past key) (is_hit key) es) (
                  if stops (is_past key) (is_hit key) es
                  then []
                  else chain_hits (is_past key) (is_hit key) ess))))
