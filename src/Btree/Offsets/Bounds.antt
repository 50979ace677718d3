-- ===== src/Btree/Offsets/Bounds.antt =====
-- The buffer behind a list of offsets.
use bsondb.Common.{
  ℕ, ◌*◌, ◌+◌, ◌%◌, ◌^◌, ◌≤◌, ◌<◌, ◌≡◌, ◌⊎◌, inl, inr, [], ◌∷◌, ◌++◌, Bool, false, ◌==◌,
  if◌then◌else◌, length, length-append, Bool-cases, arith,
}
use bsondb.Bson.Result.{ok, err, out_of_memory}
use bsondb.Bson.Wire.{size_mod}
use bsondb.Btree.Offsets.{OffsetList, offset_list_push}

-- The items fit into the buffer, and the buffer is at most 16 items larger than twice what it holds.
pub record IsSized (list : OffsetList) : Type 0 where
  pub used : length list.items ≤ list.cap
  pub tight : list.cap ≤ 16 + 2 * length list.items

-- `list` with `value` behind its items, in a buffer for `cap` of them.
abbrev pub pushed : OffsetList → ℕ → ℕ → OffsetList
pushed list value cap = record { items = list.items ++ value ∷ []; cap = cap }

module _ (can_alloc : ℕ → Bool) (list : OffsetList) (value : ℕ) (h : IsSized list)
    (small : length list.items < 2 ^ 58) where
  room_for :
      (cap : ℕ)
      → length list.items + 1 ≤ cap
      → cap ≤ 18 + 2 * length list.items
      → IsSized (pushed list value cap)
  room_for cap used tight = record {
    used = omega (arith, used, length-append list.items (value ∷ []));
    tight = omega (arith, tight, length-append list.items (value ∷ []));
  }

  -- From a list of fewer than 2 ^ 58 offsets whose buffer is sized so, a push writes inside the buffer
  -- that it leaves and keeps it sized so, with the value behind the others; or `realloc` refuses a number
  -- of bytes that is needed, less than 2 ^ 63.
  pub offset_list_push_cases :
      ((cap : ℕ) × (offset_list_push can_alloc list value ≡ ok (pushed list value cap))
        × IsSized (pushed list value cap))
      ⊎ ((offset_list_push can_alloc list value ≡ err out_of_memory)
          × ((n : ℕ) × (can_alloc n ≡ false) × (8 * (length list.items + 1) ≤ n) × (n < 2 ^ 63)))
  unfolding offset_list_push
  offset_list_push_cases =
      let new_cap = if list.cap == 0 then 16 else list.cap * 2 % size_mod in
      elim (Bool-cases (length list.items == list.cap)) [
        | inl full ↦
            let grown : (length list.items + 1 ≤ new_cap) × (new_cap ≤ 18 + 2 * length list.items) =
              ground (arith, full, h.used, h.tight, small) in
            elim (Bool-cases (can_alloc (new_cap * 8 % size_mod))) [
              | inl t ↦ inl (new_cap, rw (full, t), room_for new_cap grown.0 grown.1)
              | inr f ↦ inr (
                rw (full, f),
                (
                  new_cap * 8 % size_mod,
                  f,
                  omega (arith, grown, small),
                  omega (arith, grown, small),
                ),
              )
            ]
        | inr room ↦ inl (
          list.cap,
          rw room,
          room_for list.cap (ground (arith, room, h.used)) (omega (arith, h.tight)),
        )
      ]
