-- ===== src/Btree/Handle/Lookup.antt =====
-- What `IndexHandle_lookup` and `IndexHandle_range` answer on a whole index.
use bsondb.Common.{
  ℕ, ◌*◌, ◌%◌, ◌≡◌, refl, sym, ap, ◌∙◌, ◌⊎◌, inl, inr, List, [], ◌∷◌, ◌++◌, Bool, true, false,
  Option, none, some, ◌==◌, if◌then◌else◌, length, append-nil, append_assoc, Bool-cases,
}
use bsondb.Bson.Result
use bsondb.Bson.Result.{Result, ok, err, out_of_memory}
use bsondb.Bson.Wire.{size_mod}
use bsondb.Storage.Handle.{Reply, returned, raised, memory_error, reply}
use bsondb.Btree.Key.Rank.{IsKey}
use bsondb.Btree.Offsets.{OffsetList, offset_list_init, offset_list_push}
use bsondb.Btree.Chain.{push_all}
use bsondb.Btree.Tree.{Tree, leaves, contents}
use bsondb.Btree.Index.{HoldsIndex, offsets_of, offsets_in}
use bsondb.Btree.Index.Lookup.{btree_lookup_lem}
use bsondb.Btree.Index.Range.{IsBound, btree_range_lem}
use bsondb.Btree.Range.{Bounds}
use bsondb.Btree.Lifecycle.{Btree}
use bsondb.Btree.Handle.{
  IndexHandle, with_tree, with_key, bound_ok, index_lookup, index_range, to_pylist,
}

module _ (can_alloc : ℕ → Bool) where
  -- A push adds to the end of the list, or the memory is exhausted.
  push_cases :
      (out : OffsetList) (o : ℕ)
      → ((c : ℕ) × (offset_list_push can_alloc out o
            ≡ ok (record { items = out.items ++ o ∷ []; cap = c })))
        ⊎ ((offset_list_push can_alloc out o ≡ err out_of_memory)
            × ((n : ℕ) × (can_alloc n ≡ false)))
  unfolding offset_list_push
  push_cases out o =
      let new_cap = if out.cap == 0 then 16 else out.cap * 2 % size_mod in
      elim (Bool-cases (length out.items == out.cap)) [
        | inl full ↦ elim (Bool-cases (can_alloc (new_cap * 8 % size_mod))) [
          | inl t ↦ inl (new_cap, rw (full, t))
          | inr f ↦ inr (rw (full, f), (new_cap * 8 % size_mod, f))
        ]
        | inr room ↦ inl (out.cap, rw room)
      ]

  -- So do the pushes of a whole list.
  pub push_all_cases :
      (os : List ℕ) (out : OffsetList)
      → ((c : ℕ) × (push_all can_alloc out os ≡ ok (record { items = out.items ++ os; cap = c })))
        ⊎ ((push_all can_alloc out os ≡ err out_of_memory) × ((n : ℕ) × (can_alloc n ≡ false)))
  push_all_cases [] out =
      inl (out.cap, ap (λ x. ok (record { items = x; cap = out.cap })) (sym (append-nil out.items)))
  push_all_cases (o ∷ os) out = elim (push_cases out o) [
    | inl (c, e) ↦
        let next = λ (r : Result OffsetList). Result.◌>>=◌ r (λ out'. push_all can_alloc out' os) in
        elim (push_all_cases os (record { items = out.items ++ o ∷ []; cap = c })) [
          | inl (d, f) ↦ inl (
            d,
            ap next e
                ∙ f
                ∙ ap (λ x. ok (record { items = x; cap = d })) (append_assoc out.items (o ∷ []) os),
          )
          | inr (f, short) ↦ inr (ap next e ∙ f, short)
        ]
    | inr (e, short) ↦ inr (
      ap (λ (r : Result OffsetList). Result.◌>>=◌ r (λ out'. push_all can_alloc out' os)) e,
      short,
    )
  ]

-- An answer with the offsets `os`, or MemoryError where the interpreter or `realloc` is out of memory;
-- the tree stays as it is.
abbrev pub Answers : (ℕ → Bool) → Bool → List ℕ → Btree → Reply (List ℕ) × IndexHandle → Type 0
Answers can_alloc py_alloc os tree answer =
    (answer ≡ (returned os, some tree))
    ⊎ ((answer ≡ (raised memory_error, some tree))
        × ((py_alloc ≡ false) ⊎ ((n : ℕ) × (can_alloc n ≡ false))))

module _ (can_alloc : ℕ → Bool) (py_alloc : Bool) (tree : Btree) where
  pub collected :
      (os : List ℕ)
      → Answers can_alloc py_alloc os tree
          (to_pylist py_alloc (reply (push_all can_alloc offset_list_init os), some tree))
  unfolding offset_list_init bsondb.Storage.Handle.storage_error_to_python
  collected os =
      let answer = λ (r : Result OffsetList). to_pylist py_alloc (reply r, some tree) in
      elim (push_all_cases can_alloc os offset_list_init) [
        | inl (c, e) ↦ elim (Bool-cases py_alloc) [
          | inl t ↦ inl (rw (e, t))
          | inr f ↦ inr (rw (e, f), inl f)
        ]
        | inr (e, short) ↦ inr (rw e, inr short)
      ]

  -- On a file that holds an index with the tree `t`, `lookup` of a key returns the offsets of exactly the
  -- live entries with that key, in the order of the leaves, or raises MemoryError where memory is short,
  -- and changes nothing.
  pub index_lookup_lem :
      (t : Tree) (key : List ℕ)
      → HoldsIndex tree.file t
      → IsKey key
      → Answers can_alloc py_alloc
          (offsets_of key (contents (leaves t)))
          tree
          (index_lookup can_alloc py_alloc key (some tree))
  unfolding index_lookup with_key with_tree
  index_lookup_lem t key h key_ok =
      rw (key_ok.sized, btree_lookup_lem can_alloc tree.file t h key key_ok offset_list_init)
        (collected (offsets_of key (contents (leaves t))))

  IsBound-bound_ok : (bound : Option (List ℕ)) → IsBound bound → bound_ok bound ≡ true
  IsBound-bound_ok none h = refl
  IsBound-bound_ok (some key) h = rw h.sized

  -- On a file that holds an index with the tree `t`, `range` between two bounds (absent or keys) returns
  -- the offsets of exactly the live entries between them, in the order of the leaves, or raises
  -- MemoryError where memory is short, and changes nothing.
  pub index_range_lem :
      (t : Tree) (b : Bounds)
      → HoldsIndex tree.file t
      → IsBound b.low
      → IsBound b.high
      → Answers can_alloc py_alloc
          (offsets_in b (contents (leaves t)))
          tree
          (index_range can_alloc py_alloc b (some tree))
  unfolding index_range with_tree
  index_range_lem t b h low_ok high_ok =
      rw
        (
          IsBound-bound_ok b.low low_ok,
          IsBound-bound_ok b.high high_ok,
          btree_range_lem tree.file t h can_alloc b low_ok high_ok offset_list_init,
        )
        (collected (offsets_in b (contents (leaves t))))
