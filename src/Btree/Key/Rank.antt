-- ===== src/Btree/Key/Rank.antt =====
-- The order of keys is that of a number: the tag first, then the value that the payload stands for.
use Prim.Native.Nat.{Ordering, compare}
use bsondb.Common.{
  ℕ, zero, suc, ◌+◌, ◌-◌, ◌*◌, ◌^◌, ◌≤◌, ◌<◌, ◌≡◌, refl, sym, ap, ◌∙◌, List, [], ◌∷◌, false, ◌==◌,
  if◌then◌else◌, get_or, slice, drop, take, take-length, length, length-take, length-drop, All,
  from_le, IsByte, arith,
}
use native.Mathlib.Nat.{pow-succ', mul-le-mul_right}
use bsondb.Common.Int.{ℤ, pos_part, neg_part}
use bsondb.Bson.Wire.{i64_of}
use bsondb.Btree.Key.{
  memcmp, cmp_int, is_nan, signed_magnitude, double_lt, cmp_double, payload, cmp_payload, key_cmp,
  tag_null, tag_bool, tag_int, tag_double, tag_datetime, tag_objectid,
}

-- An `int64_t`, moved up into the natural numbers.
abbrev lifted : ℤ → ℕ
lifted a = 2 ^ 63 + pos_part a - neg_part a

-- The number that the bytes are, the highest first.
abbrev from_be : List ℕ → ℕ
from_be [] = 0
from_be (b ∷ bs) = b * 256 ^ length bs + from_be bs

abbrev value : ℕ → List ℕ → ℕ
value tag key =
    if tag == tag_null
    then 0
    else if tag == tag_bool
    then get_or key 1 0
    else if tag == tag_int
    then lifted (i64_of (payload key))
    else if tag == tag_datetime
    then lifted (i64_of (payload key))
    else if tag == tag_double
    then lifted (signed_magnitude (payload key))
    else from_be (slice key 1 12)

unfoldable pub rank : List ℕ → ℕ
rank key = get_or key 0 0 * 2 ^ 96 + value (get_or key 0 0) key

-- 13 bytes, and no NaN.
pub record IsKey (key : List ℕ) : Type 0 where
  pub sized : length key ≡ 13
  pub bytes : All IsByte key
  pub number : get_or key 0 0 ≡ tag_double → is_nan (payload key) ≡ false

cmp_int_lem :
    (a b : ℤ)
    → neg_part a ≤ 2 ^ 63
    → neg_part b ≤ 2 ^ 63
    → cmp_int a b ≡ compare (lifted a) (lifted b)
unfolding cmp_int
cmp_int_lem a b ha hb = ground arith

i64_of-small : (w : ℕ) → w < 2 ^ 64 → neg_part (i64_of w) ≤ 2 ^ 63
i64_of-small w h = ground arith

magnitude-small : (w : ℕ) → w < 2 ^ 64 → neg_part (signed_magnitude w) ≤ 2 ^ 63
magnitude-small w h = ground arith

cmp_double_lem :
    (a b : ℕ)
    → is_nan a ≡ false
    → is_nan b ≡ false
    → cmp_double a b ≡ cmp_int (signed_magnitude a) (signed_magnitude b)
unfolding cmp_double double_lt cmp_int
cmp_double_lem a b na nb = rw (na, nb)

-- A lower digit outweighs all that stands behind it.
below_next : (x y p r : ℕ) → x < y → r < p → x * p + r < y * p
below_next x y p r h hr = omega (arith, mul-le-mul_right {m = x + 1} {n = y} p (omega (arith, h)))

from_be-small : (bs : List ℕ) → All IsByte bs → from_be bs < 256 ^ length bs
from_be-small [] h = omega arith
from_be-small (b ∷ bs) (h, hs) = omega (
  arith,
  below_next b 256 (256 ^ length bs) (from_be bs) h (from_be-small bs hs),
  pow-succ' 256 (length bs),
)

memcmp_lem :
    (xs ys : List ℕ)
    → All IsByte xs
    → All IsByte ys
    → length xs ≡ length ys
    → memcmp xs ys ≡ compare (from_be xs) (from_be ys)
unfolding memcmp
memcmp_lem [] [] hx hy e = ground arith
memcmp_lem [] (y ∷ ys) hx hy e = absurd (omega (arith, e))
memcmp_lem (x ∷ xs) [] hx hy e = absurd (omega (arith, e))
memcmp_lem (x ∷ xs) (y ∷ ys) (hx, hxs) (hy, hys) e =
    let same : length xs ≡ length ys = omega (arith, e) in
    let p : 256 ^ length xs ≡ 256 ^ length ys = ap (λ (n : ℕ). 256 ^ n) same in
    ground (
      arith,
      memcmp_lem xs ys hxs hys same,
      from_be-small xs hxs,
      from_be-small ys hys,
      p,
      below_next x y (256 ^ length xs) (from_be xs),
      below_next y x (256 ^ length ys) (from_be ys),
    )

from_le-small : (bs : List ℕ) → All IsByte bs → from_le bs < 256 ^ length bs
unfolding from_le
from_le-small [] h = omega arith
from_le-small (b ∷ bs) (h, hs) = omega (arith, h, from_le-small bs hs, pow-succ' 256 (length bs))

slice-All : (i n : ℕ) (bs : List ℕ) → All IsByte bs → All IsByte (slice bs i n)
slice-All zero zero bs h = tt
slice-All zero (suc n) [] h = tt
slice-All zero (suc n) (b ∷ bs) (h, hs) = (h, slice-All zero n bs hs)
slice-All (suc i) n [] h = slice_nil n
  where
    slice_nil : (n : ℕ) → All IsByte (take {A = ℕ} n [])
    slice_nil zero = tt
    slice_nil (suc n) = tt
slice-All (suc i) n (b ∷ bs) (h, hs) = slice-All i n bs hs

length-slice : (bs : List ℕ) (i n : ℕ) → i + n ≤ length bs → length (slice bs i n) ≡ n
length-slice bs i n h = omega (arith, h, length-take n (drop i bs), length-drop i bs)

payload-small : (key : List ℕ) → IsKey key → payload key < 2 ^ 64
payload-small key h = omega (
  arith,
  from_le-small (slice key 1 8) (slice-All 1 8 key h.bytes),
  ap (λ (n : ℕ). 256 ^ n) (length-slice key 1 8 (omega (arith, h.sized))),
)

get_or-byte : (i : ℕ) (bs : List ℕ) → All IsByte bs → get_or bs i 0 < 256
get_or-byte i [] h = omega arith
get_or-byte zero (b ∷ bs) (h, hs) = h
get_or-byte (suc i) (b ∷ bs) (h, hs) = get_or-byte i bs hs

lifted-i64_of : (w : ℕ) → w < 2 ^ 64 → lifted (i64_of w) < 2 ^ 96
lifted-i64_of w h = ground arith

lifted-magnitude : (w : ℕ) → w < 2 ^ 64 → lifted (signed_magnitude w) < 2 ^ 96
lifted-magnitude w h = ground arith

bytes-small : (key : List ℕ) → IsKey key → from_be (slice key 1 12) < 2 ^ 96
bytes-small key h = omega (
  arith,
  from_be-small (slice key 1 12) (slice-All 1 12 key h.bytes),
  ap (λ (n : ℕ). 256 ^ n) (length-slice key 1 12 (omega (arith, h.sized))),
)

value-small : (tag : ℕ) (key : List ℕ) → IsKey key → value tag key < 2 ^ 96
value-small tag key h = ground (
  arith,
  get_or-byte 1 key h.bytes,
  lifted-i64_of (payload key) (payload-small key h),
  lifted-magnitude (payload key) (payload-small key h),
  bytes-small key h,
)

memcmp-cons :
    (a b : List ℕ)
    → length a ≡ 13
    → length b ≡ 13
    → get_or a 0 0 ≡ get_or b 0 0
    → memcmp a b ≡ memcmp (slice a 1 12) (slice b 1 12)
unfolding memcmp
memcmp-cons [] b ha hb e = absurd (omega (arith, ha))
memcmp-cons (x ∷ xs) [] ha hb e = absurd (omega (arith, hb))
memcmp-cons (x ∷ xs) (y ∷ ys) ha hb e =
    ground (arith, e, whole xs (omega (arith, ha)), whole ys (omega (arith, hb)))
  where
    whole : (xs : List ℕ) → length xs ≡ 12 → take 12 xs ≡ xs
    whole xs h = ap (λ (n : ℕ). take n xs) (sym h) ∙ take-length xs

-- The same switch on both sides, with the branches as variables.
switch :
    (tag : ℕ) (cmp_i cmp_d cmp_o cmp_x : Ordering) (a1 b1 ai bi ad bd ao bo : ℕ)
    → cmp_i ≡ compare ai bi
    → (tag ≡ tag_double → cmp_d ≡ compare ad bd)
    → cmp_o ≡ compare ao bo
    → cmp_x ≡ compare ao bo
    → (if tag == tag_null
        then Ordering.eq
        else if tag == tag_bool
        then compare a1 b1
        else if tag == tag_int
        then cmp_i
        else if tag == tag_datetime
        then cmp_i
        else if tag == tag_double
        then cmp_d
        else if tag == tag_objectid
        then cmp_o
        else cmp_x)
      ≡ compare
          (if tag == tag_null
            then 0
            else if tag == tag_bool
            then a1
            else if tag == tag_int
            then ai
            else if tag == tag_datetime
            then ai
            else if tag == tag_double
            then ad
            else ao)
          (if tag == tag_null
            then 0
            else if tag == tag_bool
            then b1
            else if tag == tag_int
            then bi
            else if tag == tag_datetime
            then bi
            else if tag == tag_double
            then bd
            else bo)
switch tag cmp_i cmp_d cmp_o cmp_x a1 b1 ai bi ad bd ao bo ei ed eo ex = ground arith

cmp_payload_lem :
    (tag : ℕ) (a b : List ℕ)
    → IsKey a
    → IsKey b
    → get_or a 0 0 ≡ tag
    → get_or b 0 0 ≡ tag
    → cmp_payload tag a b ≡ compare (value tag a) (value tag b)
unfolding cmp_payload
cmp_payload_lem tag a b ha hb ea eb =
    switch tag (cmp_int (i64_of (payload a)) (i64_of (payload b)))
      (cmp_double (payload a) (payload b)) (memcmp (slice a 1 12) (slice b 1 12)) (memcmp a b)
      (get_or a 1 0) (get_or b 1 0) (lifted (i64_of (payload a))) (lifted (i64_of (payload b)))
      (lifted (signed_magnitude (payload a))) (lifted (signed_magnitude (payload b)))
      (from_be (slice a 1 12)) (from_be (slice b 1 12))
      (cmp_int_lem (i64_of (payload a)) (i64_of (payload b))
        (i64_of-small (payload a) (payload-small a ha))
        (i64_of-small (payload b) (payload-small b hb)))
      (λ e. doubles (ha.number (ea ∙ e)) (hb.number (eb ∙ e))) bytes
      (memcmp-cons a b ha.sized hb.sized (ea ∙ sym eb) ∙ bytes)
  where
    doubles :
        is_nan (payload a) ≡ false
        → is_nan (payload b) ≡ false
        → cmp_double (payload a) (payload b)
          ≡ compare (lifted (signed_magnitude (payload a))) (lifted (signed_magnitude (payload b)))
    doubles na nb =
        cmp_double_lem (payload a) (payload b) na nb
        ∙ cmp_int_lem (signed_magnitude (payload a)) (signed_magnitude (payload b))
            (magnitude-small (payload a) (payload-small a ha))
            (magnitude-small (payload b) (payload-small b hb))

    bytes :
        memcmp (slice a 1 12) (slice b 1 12)
        ≡ compare (from_be (slice a 1 12)) (from_be (slice b 1 12))
    bytes =
        memcmp_lem (slice a 1 12) (slice b 1 12) (slice-All 1 12 a ha.bytes)
          (slice-All 1 12 b hb.bytes)
          (length-slice a 1 12 (omega (arith, ha.sized))
            ∙ sym (length-slice b 1 12 (omega (arith, hb.sized))))

tags_first :
    (ta tb va vb : ℕ) (o : Ordering)
    → va < 2 ^ 96
    → vb < 2 ^ 96
    → (ta ≡ tb → o ≡ compare va vb)
    → elim (compare ta tb) [
      | Ordering.lt ↦ Ordering.lt
      | Ordering.eq ↦ o
      | Ordering.gt ↦ Ordering.gt
    ]
      ≡ compare (ta * 2 ^ 96 + va) (tb * 2 ^ 96 + vb)
tags_first ta tb va vb o ha hb e = ground arith

-- On two keys (13 bytes each, and no double that is NaN) `bson_btree_key_cmp` has the sign of the
-- comparison of their ranks: the tag first, then the value that the payload stands for.
pub key_cmp_lem : (a b : List ℕ) → IsKey a → IsKey b → key_cmp a b ≡ compare (rank a) (rank b)
unfolding key_cmp rank
key_cmp_lem a b ha hb =
    tags_first (get_or a 0 0) (get_or b 0 0) (value (get_or a 0 0) a) (value (get_or b 0 0) b)
      (cmp_payload (get_or a 0 0) a b) (value-small (get_or a 0 0) a ha)
      (value-small (get_or b 0 0) b hb)
      (λ e.
        cmp_payload_lem (get_or a 0 0) a b ha hb refl (sym e)
        ∙ ap (λ (t : ℕ). compare (value (get_or a 0 0) a) (value t b)) e)
