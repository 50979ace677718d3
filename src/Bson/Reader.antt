-- ===== src/Bson/Reader.antt =====
-- `bson_reader_t`: a bounds-checked cursor over a borrowed buffer. The buffer is the list of its
-- bytes, and a pointer into it is an offset. A call that fails leaves the cursor where it was, and
-- every caller drops the cursor then, so the failing outcomes carry none. `pos += count` follows a
-- test that `count` bytes are left, so only the subtraction in `remaining` can wrap.
pub mod Bounds
use bsondb.Common.{
  ℕ, zero, suc, ◌+◌, ◌-◌, ◌*◌, ◌%◌, List, [], ◌∷◌, Bool, ltb, leb, ◌==◌, if◌then◌else◌, from_le,
  slice,
}
use bsondb.Common.Int.{ℤ}
use bsondb.Bson.Result.{Result, ok, err, ◌>>=◌, byte_at, truncated_buffer, unterminated_string}
use bsondb.Bson.Wire.{size_mod, i32_of, i64_of}

pub record Reader : Type 0 where
  pub buf : List ℕ
  pub len : ℕ
  pub pos : ℕ

unfoldable pub init : List ℕ → ℕ → Reader
init buf len = record { buf = buf; len = len; pos = 0 }

unfoldable pub remaining : Reader → ℕ
remaining r = (r.len + size_mod - r.pos) % size_mod

-- `memcpy` of `n` bytes from `buf + i`
unfoldable pub load : List ℕ → ℕ → ℕ → Result (List ℕ)
load buf i zero = ok []
load buf i (suc n) = do b ← byte_at buf i; bs ← load buf (i + 1) n; ok (b ∷ bs)

unfoldable pub read_u8 : Reader → Result (ℕ × Reader)
read_u8 r =
    if ltb (remaining r) 1
    then err truncated_buffer
    else do b ← byte_at r.buf r.pos; ok (b, record r { pos = r.pos + 1 })

unfoldable pub read_i32 : Reader → Result (ℤ × Reader)
read_i32 r =
    if ltb (remaining r) 4
    then err truncated_buffer
    else do raw ← load r.buf r.pos 4; ok (i32_of (from_le raw), record r { pos = r.pos + 4 })

unfoldable pub read_i64 : Reader → Result (ℤ × Reader)
read_i64 r =
    if ltb (remaining r) 8
    then err truncated_buffer
    else do raw ← load r.buf r.pos 8; ok (i64_of (from_le raw), record r { pos = r.pos + 8 })

-- A double is its 64-bit pattern.
unfoldable pub read_double : Reader → Result (ℕ × Reader)
read_double r =
    if ltb (remaining r) 8
    then err truncated_buffer
    else do raw ← load r.buf r.pos 8; ok (from_le raw, record r { pos = r.pos + 8 })

-- The pointer that is handed out is the offset of its first byte.
unfoldable pub read_bytes : Reader → ℕ → Result (ℕ × Reader)
read_bytes r count =
    if ltb (remaining r) count
    then err truncated_buffer
    else ok (r.pos, record r { pos = r.pos + count })

-- The loop over `i`, with `n` bytes left before the bound.
unfoldable pub scan_nul : List ℕ → ℕ → ℕ → Result ℕ
scan_nul buf i zero = ok i
scan_nul buf i (suc n) = do
  b ← byte_at buf i
  let rest = scan_nul buf (i + 1) n
  if b == 0 then ok i else rest

-- The outputs are the offset of the string, its length, and the cursor behind the NUL.
unfoldable pub read_cstring_bounded : Reader → ℕ → Result (ℕ × ℕ × Reader)
read_cstring_bounded r bound₀ =
    let bound = if ltb r.len bound₀ then r.len else bound₀ in
    if ltb bound r.pos then err truncated_buffer else do
      i ← scan_nul r.buf r.pos (bound - r.pos)
      if leb bound i
          then err unterminated_string
          else ok (r.pos, i - r.pos, record r { pos = i + 1 })

unfoldable pub skip : Reader → ℕ → Result Reader
skip r count =
    if ltb (remaining r) count then err truncated_buffer else ok (record r { pos = r.pos + count })
