-- ===== src/Btree/Key.antt =====
-- `bson_btree_key_cmp`: a key is 13 bytes, a tag and a payload that the tag tells how to read.
pub mod Rank
use Prim.Native.Nat.{Ordering, compare}
use bsondb.Common.{
  ℕ, zero, suc, ◌+◌, ◌-◌, ◌*◌, ◌/◌, ◌%◌, ◌^◌, List, [], ◌∷◌, Bool, true, false, ◌&&◌, not, ltb,
  ◌==◌, if◌then◌else◌, get_or, slice, drop, from_le,
}
use bsondb.Common.Int.{ℤ, pos, negsuc, ltb_ℤ}
use bsondb.Bson.Wire.{i64_of}

abbrev pub key_size : ℕ
key_size = 13

-- BSON_BTREE_TAG_*
abbrev pub tag_null : ℕ
tag_null = 0

abbrev pub tag_bool : ℕ
tag_bool = 1

abbrev pub tag_int : ℕ
tag_int = 2

abbrev pub tag_double : ℕ
tag_double = 3

abbrev pub tag_datetime : ℕ
tag_datetime = 4

abbrev pub tag_objectid : ℕ
tag_objectid = 5

-- `memcmp` of two buffers of the same length, by its sign.
unfoldable pub memcmp : List ℕ → List ℕ → Ordering
memcmp [] _ = Ordering.eq
memcmp (x ∷ xs) [] = Ordering.eq
memcmp (x ∷ xs) (y ∷ ys) =
    let rest = memcmp xs ys in
    elim (compare x y) [
      | Ordering.lt ↦ Ordering.lt
      | Ordering.eq ↦ rest
      | Ordering.gt ↦ Ordering.gt
    ]

-- `a < b ? -1 : (a > b ? 1 : 0)`
abbrev pub three_way : Bool → Bool → Ordering
three_way less greater = if less then Ordering.lt else if greater then Ordering.gt else Ordering.eq

-- `value_a` against `value_b`, as `int64_t`.
unfoldable pub cmp_int : ℤ → ℤ → Ordering
cmp_int a b = three_way (ltb_ℤ a b) (ltb_ℤ b a)

-- A double by its bit pattern: the exponent is all ones and the fraction is not 0.
unfoldable pub is_nan : ℕ → Bool
is_nan raw = (raw / 2 ^ 52 % 2 ^ 11 == 2047) && not (raw % 2 ^ 52 == 0)

-- The patterns of one sign are ordered as the numbers, and the two zeros are equal.
abbrev pub signed_magnitude : ℕ → ℤ
signed_magnitude raw =
    if ltb raw (2 ^ 63) then pos raw else if raw == 2 ^ 63 then pos 0 else negsuc (raw - 2 ^ 63 - 1)

-- `double_a < double_b` of IEEE 754.
unfoldable pub double_lt : ℕ → ℕ → Bool
double_lt a b =
    not (is_nan a) && (not (is_nan b) && ltb_ℤ (signed_magnitude a) (signed_magnitude b))

unfoldable pub cmp_double : ℕ → ℕ → Ordering
cmp_double a b = three_way (double_lt a b) (double_lt b a)

-- `read_u64(key + 1)`
abbrev pub payload : List ℕ → ℕ
payload key = from_le (slice key 1 8)

-- The `switch` on the tag, which both keys have.
unfoldable pub cmp_payload : ℕ → List ℕ → List ℕ → Ordering
cmp_payload tag a b =
    if tag == tag_null
    then Ordering.eq
    else if tag == tag_bool
    then compare (get_or a 1 0) (get_or b 1 0)
    else if tag == tag_int
    then cmp_int (i64_of (payload a)) (i64_of (payload b))
    else if tag == tag_datetime
    then cmp_int (i64_of (payload a)) (i64_of (payload b))
    else if tag == tag_double
    then cmp_double (payload a) (payload b)
    else if tag == tag_objectid
    then memcmp (slice a 1 12) (slice b 1 12)
    else memcmp a b

-- `bson_btree_key_cmp`; the C function returns an `int` of that sign.
unfoldable pub key_cmp : List ℕ → List ℕ → Ordering
key_cmp a b = elim (compare (get_or a 0 0) (get_or b 0 0)) [
  | Ordering.lt ↦ Ordering.lt
  | Ordering.eq ↦ cmp_payload (get_or a 0 0) a b
  | Ordering.gt ↦ Ordering.gt
]
