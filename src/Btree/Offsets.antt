-- ===== src/Btree/Offsets.antt =====
-- `bson_btree_offset_list_t`: the growing array of results.
pub mod Bounds
use bsondb.Common.{ℕ, ◌*◌, ◌%◌, List, [], ◌∷◌, ◌++◌, Bool, ◌==◌, if◌then◌else◌, length}
use bsondb.Bson.Result.{Result, ok, err, out_of_memory}
use bsondb.Bson.Wire.{size_mod}

pub record OffsetList : Type 0 where
  pub items : List ℕ
  pub cap : ℕ

-- `bson_btree_offset_list_init`
unfoldable pub offset_list_init : OffsetList
offset_list_init = record { items = []; cap = 0 }

-- `offset_list_push`; `can_alloc` says whether `realloc` has that many bytes.
unfoldable pub offset_list_push : (ℕ → Bool) → OffsetList → ℕ → Result OffsetList
offset_list_push can_alloc list value =
    if length list.items == list.cap
    then (let new_cap = if list.cap == 0 then 16 else list.cap * 2 % size_mod in
        if can_alloc (new_cap * 8 % size_mod)
        then ok (record { items = list.items ++ value ∷ []; cap = new_cap })
        else err out_of_memory)
    else ok (record list { items = list.items ++ value ∷ [] })
