-- ===== src/Bson/Utf8.antt =====
-- `bson_utf8_validate`. The list is `data[i..len)`; each round takes one byte at least, so as many
-- rounds as there are bytes are enough (`Accepts` proves what the loop accepts, both ways).
pub mod Scalars
mod Decode
pub mod Accepts
use bsondb.Common.{
  ℕ, zero, suc, ◌+◌, ◌*◌, ◌^◌, List, [], ◌∷◌, Bool, true, false, Option, none, some, ltb, leb, ◌==◌,
  ◌&&◌, if◌then◌else◌, bit_and, bit_or, length, drop,
}

-- What the first byte of a sequence says: `extra`, the bits for `code_point`, `min_code_point`.
pub record Lead : Type 0 where
  pub extra : ℕ
  pub bits : ℕ
  pub min_code_point : ℕ

unfoldable pub lead : ℕ → Option Lead
lead b =
    if bit_and b 0xe0 == 0xc0
    then some (record { extra = 1; bits = bit_and b 0x1f; min_code_point = 0x80 })
    else if bit_and b 0xf0 == 0xe0
    then some (record { extra = 2; bits = bit_and b 0x0f; min_code_point = 0x800 })
    else if bit_and b 0xf8 == 0xf0
    then some (record { extra = 3; bits = bit_and b 0x07; min_code_point = 0x10000 })
    else none

-- The `for` loop over the continuation bytes, `n` of them left; `none` is `return false`.
-- `code_point` stays below 2 ^ 21, so the shift loses nothing.
unfoldable pub continuation : ℕ → List ℕ → ℕ → Option ℕ
continuation zero rest code_point = some code_point
continuation (suc n) [] code_point = none
continuation (suc n) (b ∷ rest) code_point =
    let more = continuation n rest (bit_or (code_point * 2 ^ 6) (bit_and b 0x3f)) in
    if bit_and b 0xc0 == 0x80 then more else none

-- The tests on a complete code point.
unfoldable pub acceptable : ℕ → ℕ → Bool
acceptable min_code_point code_point =
    if ltb code_point min_code_point
    then false
    else if ltb 0x10ffff code_point
    then false
    else if leb 0xd800 code_point && leb code_point 0xdfff
    then false
    else true

-- A sequence of several bytes whose first is consumed: the code point is decoded and tested.
unfoldable pub sequence : Lead → List ℕ → Bool
sequence l rest =
    if ltb (length rest) l.extra then false else elim (continuation l.extra rest l.bits) [
      | none ↦ false
      | some code_point ↦ acceptable l.min_code_point code_point
    ]

unfoldable pub utf8_loop : ℕ → List ℕ → Bool
utf8_loop fuel [] = true
utf8_loop zero (b ∷ rest) = false
utf8_loop (suc fuel) (b ∷ rest) =
    let ascii = utf8_loop fuel rest in
    let multi : Bool = elim (lead b) [
      | none ↦ false
      | some l ↦ elim (sequence l rest) [
        | true ↦ utf8_loop fuel (drop l.extra rest)
        | false ↦ false
      ]
    ] in
    if ltb b 0x80 then ascii else multi

unfoldable pub utf8_validate : List ℕ → Bool
utf8_validate bytes = utf8_loop (length bytes) bytes
