-- ===== src/Btree/Chain/Live.antt =====
-- `key_has_live_entry` along a chain of leaves.
use bsondb.Common.{
  ℕ, zero, suc, ◌+◌, ◌<◌, ◌≡◌, refl, sym, ap, ◌∙◌, inl, inr, List, [], ◌∷◌, ◌++◌, Bool, true, false,
  Option, none, some, if◌then◌else◌, length, append_assoc, length-append, Bool-cases, arith,
}
use bsondb.Bson.Result.{ok}
use bsondb.Mmap.{MmapFile}
use bsondb.Mmap.Exec.{◌>>=◌}
use bsondb.Btree.Key.{key_cmp}
use bsondb.Btree.Layout.{page_link}
use bsondb.Btree.Leaf.{Entry, HoldsLeaf, page_entries-leaf, page_link-leaf, peek_key}
use bsondb.Btree.Chain.{not_zero, Chain, hits_before, stops, chain_hits}
use bsondb.Btree.Chain.Lookup.{is_past, is_hit, live_where-there}
use bsondb.Btree.Search.{is_equal, answer_or, live_in_leaf, live_in_chain}

abbrev pub nonempty : List ℕ → Bool
nonempty [] = false
nonempty (x ∷ xs) = true

module _ (file : MmapFile) (mapped : file.mapped ≡ true) (key : List ℕ) where
  -- What the loop over a leaf answers.
  abbrev answer : List Entry → Option Bool
  answer [] = none
  answer (e ∷ es) =
      if is_past key e then some false else if is_hit key e then some true else answer es

  abbrev or_else : Option Bool → Bool → Bool
  or_else none b = b
  or_else (some a) b = a

  answer_lem :
      (es : List Entry) (more : List ℕ)
      → or_else (answer es) (nonempty more)
        ≡ nonempty (
            hits_before (is_past key) (is_hit key) es
            ++ (if stops (is_past key) (is_hit key) es then [] else more))
  answer_lem [] more = refl
  answer_lem (e ∷ es) more = elim (Bool-cases (is_past key e)) [
    | inl past ↦ rw past
    | inr not_past ↦ elim (Bool-cases (is_hit key e)) [
      | inl hit ↦ rw (not_past, hit)
      | inr miss ↦ rw (not_past, miss, answer_lem es more)
    ]
  ]

  module _ (page next : ℕ) (es : List Entry) (h : HoldsLeaf file.bytes page es next) where
    live_in_leaf_lem :
        (ys xs : List Entry)
        → es ≡ xs ++ ys
        → live_in_leaf (length ys) page (length xs) key file ≡ (ok (answer ys), file)
    unfolding live_in_leaf
    live_in_leaf_lem [] xs split = refl
    live_in_leaf_lem (e ∷ ys) xs split =
        let next_index : length (xs ++ e ∷ []) ≡ length xs + 1 =
          omega (arith, length-append xs (e ∷ [])) in
        let again =
          ap (λ (k : ℕ). live_in_leaf (length ys) page k key file) (sym next_index)
          ∙ live_in_leaf_lem ys (xs ++ e ∷ []) (split ∙ sym (append_assoc xs (e ∷ []) ys)) in
        let key_there = peek_key file mapped page next es h xs e ys split in
        let live_there =
          live_where-there (λ (n : ℕ). true) file mapped key page next es h
            (is_equal (key_cmp e.key key)) xs ys e split in
        elim (Bool-cases (is_past key e)) [
          | inl past ↦ rw (key_there, past)
          | inr not_past ↦ elim (Bool-cases (is_hit key e)) [
            | inl hit ↦ rw (key_there, not_past, live_there, hit)
            | inr miss ↦ rw (key_there, not_past, live_there, miss) again
          ]
        ]

  after_answer :
      (a : Option Bool) (fuel leaf next : ℕ) (b : Bool)
      → page_link leaf file ≡ (ok next, file)
      → live_in_chain fuel next key file ≡ (ok b, file)
      → answer_or a (do next ← page_link leaf; live_in_chain fuel next key) file
        ≡ (ok (or_else a b), file)
  after_answer none fuel leaf next b link walk = rw (link, walk)
  after_answer (some a) fuel leaf next b link walk = refl

  -- It tells whether a lookup would collect something.
  pub live_in_chain_lem :
      (ess : List (List Entry)) (fuel leaf : ℕ)
      → Chain file.bytes leaf ess
      → length ess < fuel
      → live_in_chain fuel leaf key file
        ≡ (ok (nonempty (chain_hits (is_past key) (is_hit key) ess)), file)
  unfolding live_in_chain
  live_in_chain_lem ess zero leaf c enough = absurd (omega (arith, enough))
  live_in_chain_lem [] (suc fuel) leaf c enough = rw c
  live_in_chain_lem (es ∷ ess) (suc fuel) leaf (here, (next, h, c)) enough =
      rw
        (
          not_zero leaf here,
          page_entries-leaf file mapped leaf next es h,
          live_in_leaf_lem leaf next es h es [] refl,
        )
        (after_answer (answer es) fuel leaf next
            (nonempty (chain_hits (is_past key) (is_hit key) ess))
            (page_link-leaf file mapped leaf next es h)
            (live_in_chain_lem ess fuel next c (omega (arith, enough)))
          ∙ ap (λ (b : Bool). (ok b, file))
              (answer_lem es (chain_hits (is_past key) (is_hit key) ess)))
