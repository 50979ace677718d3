-- ===== src/Bson/Writer.antt =====
-- `bson_writer_t`: a growable buffer whose document lengths are patched in afterwards. `buf` holds the
-- `len` bytes written so far; what the allocation holds behind them is not modelled. A call that fails
-- carries no writer: its caller frees it.
pub mod Capacity
use bsondb.Common.{
  ℕ, zero, suc, ◌+◌, ◌-◌, ◌*◌, ◌/◌, ◌%◌, ◌^◌, List, [], ◌∷◌, ◌++◌, Bool, true, false, ltb, leb,
  ◌==◌, if◌then◌else◌, length, to_le,
}
use bsondb.Common.Int.{ℤ, pos}
use bsondb.Bson.Result.{
  Result, ok, err, stuck, ◌>>=◌, ◌>>◌, store, out_of_memory, document_too_large, value_out_of_range,
}
use bsondb.Bson.Wire.{max_document_size, size_mod, objectid_len, eoo_byte, u32_of, u64_of}

pub record Writer : Type 0 where
  pub buf : List ℕ
  pub cap : ℕ

abbrev pub len : Writer → ℕ
len w = length w.buf

-- `while (new_cap < needed)`: the capacity doubles, or jumps to `needed` where doubling would wrap.
-- From 1 up, 64 rounds pass every `size_t`.
unfoldable pub grow : ℕ → ℕ → ℕ → Result ℕ
grow zero new_cap needed = stuck
grow (suc rounds) new_cap needed =
    let more = grow rounds (new_cap * 2) needed in
    if ltb new_cap needed
    then (if ltb ((size_mod - 1) / 2) new_cap then ok needed else more)
    else ok new_cap

abbrev pub int32_max : ℕ
int32_max = 2 ^ 31 - 1

-- `malloc` and `realloc` succeed or fail by the size that they are asked for.
module _ (can_alloc : ℕ → Bool) where
  unfoldable pub writer_init : ℕ → Result Writer
  writer_init initial_capacity =
      let capacity = if ltb initial_capacity 16 then 16 else initial_capacity in
      if can_alloc capacity then ok (record { buf = []; cap = capacity }) else err out_of_memory

  unfoldable pub writer_reserve : Writer → ℕ → Result Writer
  writer_reserve w additional =
      let needed = (len w + additional) % size_mod in
      if ltb needed (len w)
      then err out_of_memory
      else if ltb max_document_size needed
      then err document_too_large
      else if leb needed w.cap
      then ok w
      else do
        new_cap ← grow 64 (if w.cap == 0 then 256 else w.cap) needed
        if can_alloc new_cap then ok (record w { cap = new_cap }) else err out_of_memory

  unfoldable pub put_bytes : Writer → List ℕ → Result Writer
  put_bytes w bytes = do
    w' ← writer_reserve w (length bytes)
    ok (record w' { buf = w'.buf ++ bytes })

  unfoldable pub put_u8 : Writer → ℕ → Result Writer
  put_u8 w value = put_bytes w (value ∷ [])

  unfoldable pub put_i32 : Writer → ℤ → Result Writer
  put_i32 w value = put_bytes w (to_le 4 (u32_of value))

  unfoldable pub put_i64 : Writer → ℤ → Result Writer
  put_i64 w value = put_bytes w (to_le 8 (u64_of value))

  -- A double is its 64-bit pattern.
  unfoldable pub put_double : Writer → ℕ → Result Writer
  put_double w raw = put_bytes w (to_le 8 raw)

  -- The first output is `len_patch_offset`.
  unfoldable pub begin_document : Writer → Result (ℕ × Writer)
  begin_document w = do w' ← put_i32 w (pos 0); ok (len w, w')

  unfoldable pub end_document : Writer → ℕ → Result Writer
  end_document w len_patch_offset = do
    w' ← put_u8 w eoo_byte
    let total = len w' - len_patch_offset
    if ltb max_document_size total then err document_too_large else (do
      patched ← store w'.buf len_patch_offset (to_le 4 (total % 2 ^ 32))
      ok (record w' { buf = patched }))

  unfoldable pub append_element_header : Writer → ℕ → List ℕ → Result Writer
  append_element_header w type key = do w₁ ← put_u8 w type; w₂ ← put_bytes w₁ key; put_u8 w₂ 0x00

  unfoldable pub append_double : Writer → ℕ → Result Writer
  append_double w value = put_double w value

  unfoldable pub append_utf8 : Writer → List ℕ → Result Writer
  append_utf8 w str =
      if ltb (int32_max - 1) (length str)
      then err value_out_of_range
      else do w₁ ← put_i32 w (pos (length str + 1)); w₂ ← put_bytes w₁ str; put_u8 w₂ 0x00

  unfoldable pub append_binary : Writer → ℕ → List ℕ → Result Writer
  append_binary w subtype bytes =
      if ltb int32_max (length bytes)
      then err value_out_of_range
      else do w₁ ← put_i32 w (pos (length bytes)); w₂ ← put_u8 w₁ subtype; put_bytes w₂ bytes

  unfoldable pub append_objectid : Writer → List ℕ → Result Writer
  append_objectid w oid12 = put_bytes w oid12

  unfoldable pub append_bool : Writer → Bool → Result Writer
  append_bool w value = put_u8 w (if value then 0x01 else 0x00)

  unfoldable pub append_datetime_ms : Writer → ℤ → Result Writer
  append_datetime_ms w millis = put_i64 w millis

  unfoldable pub append_null : Writer → Result Writer
  append_null w = ok w

  unfoldable pub append_int32 : Writer → ℤ → Result Writer
  append_int32 w value = put_i32 w value

  unfoldable pub append_int64 : Writer → ℤ → Result Writer
  append_int64 w value = put_i64 w value

-- `bson_writer_release`: the buffer is handed over, and the writer is left empty.
unfoldable pub release : Writer → List ℕ × Writer
release w = (w.buf, record { buf = []; cap = 0 })
