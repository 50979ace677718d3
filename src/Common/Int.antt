-- ===== src/Common/Int.antt =====
-- Signed integers over the native numbers, under the library's names (its ℤ stands on the unary ℕ).
use Prim.Native.Nat.{ℕ, zero, suc, ◌+◌, ◌-◌, ◌*◌, ◌/◌, ◌^◌, ◌≤◌}
use mathlib.Core.Path.{◌≡◌}
use mathlib.Core.Bool.{Bool, false, not}
use native.Mathlib.Omega.{arith}
use bsondb.Common.Tests.{ltb, leb, ◌==◌, if◌then◌else◌}

-- `negsuc n` is -(n + 1).
pub data ℤ : Type 0 where
  pos : ℕ → ℤ
  negsuc : ℕ → ℤ

abbrev pub pos_part : ℤ → ℕ
pos_part (pos n) = n
pos_part (negsuc n) = 0

abbrev pub neg_part : ℤ → ℕ
neg_part (pos n) = 0
neg_part (negsuc n) = suc n

abbrev pub ltb_ℤ : ℤ → ℤ → Bool
ltb_ℤ a b = ltb (pos_part a + neg_part b) (pos_part b + neg_part a)

-- The C conversion `(size_t)n`: a negative number wraps modulo 2 ^ 64.
abbrev pub to_size : ℤ → ℕ
to_size (pos n) = n
to_size (negsuc n) = 2 ^ 64 - suc n

-- The difference of two natural numbers.
abbrev pub sub_ℕ : ℕ → ℕ → ℤ
sub_ℕ a b = if leb b a then pos (a - b) else negsuc (b - a - 1)

infixl 65 ◌+ℤ◌ ◌-ℤ◌
infixl 70 ◌*ℤ◌
unfoldable pub ◌+ℤ◌ : ℤ → ℤ → ℤ
a +ℤ b = sub_ℕ (pos_part a + pos_part b) (neg_part a + neg_part b)

unfoldable pub ◌-ℤ◌ : ℤ → ℤ → ℤ
a -ℤ b = sub_ℕ (pos_part a + neg_part b) (neg_part a + pos_part b)

-- A product with a natural number.
unfoldable pub ◌*ℤ◌ : ℤ → ℕ → ℤ
a *ℤ k = sub_ℕ (pos_part a * k) (neg_part a * k)

-- The C quotient by a positive number, which is cut towards 0, and its remainder.
unfoldable pub quot : ℤ → ℕ → ℤ
quot (pos n) k = pos (n / k)
quot (negsuc n) k = sub_ℕ 0 (suc n / k)

unfoldable pub rem : ℤ → ℕ → ℤ
rem a k = a -ℤ (quot a k *ℤ k)

-- The operations where nothing is negative.
pub add_pos : (a b : ℕ) → pos a +ℤ pos b ≡ pos (a + b)
unfolding ◌+ℤ◌
add_pos a b = ground arith

pub sub_pos : (a b : ℕ) → b ≤ a → pos a -ℤ pos b ≡ pos (a - b)
unfolding ◌-ℤ◌
sub_pos a b h = ground (arith, h)

pub mul_pos : (a k : ℕ) → pos a *ℤ k ≡ pos (a * k)
unfolding ◌*ℤ◌
mul_pos a k = ground arith

pub ltb_pos : (a : ℕ) → ltb_ℤ (pos a) (pos 0) ≡ false
ltb_pos a = ground arith

-- And with a negative number, which is `sub_ℕ 0 n`.
pub mul_neg : (q k : ℕ) → sub_ℕ 0 q *ℤ k ≡ sub_ℕ 0 (q * k)
unfolding ◌*ℤ◌
mul_neg zero k = ground arith
mul_neg (suc q) k = ground arith

pub sub_neg : (m p : ℕ) → p ≤ m → sub_ℕ 0 m -ℤ sub_ℕ 0 p ≡ sub_ℕ 0 (m - p)
unfolding ◌-ℤ◌
sub_neg m p h = ground (arith, h)

pub ltb_neg : (r : ℕ) → ltb_ℤ (sub_ℕ 0 r) (pos 0) ≡ not (r == 0)
ltb_neg r = ground arith

pub neg_minus : (q b : ℕ) → sub_ℕ 0 q -ℤ pos b ≡ sub_ℕ 0 (q + b)
unfolding ◌-ℤ◌
neg_minus q b = ground arith

pub neg_plus : (q b : ℕ) → b ≤ q → sub_ℕ 0 q +ℤ pos b ≡ sub_ℕ 0 (q - b)
unfolding ◌+ℤ◌
neg_plus q b h = ground (arith, h)

pub negsuc_lem : (n : ℕ) → negsuc n ≡ sub_ℕ 0 (suc n)
negsuc_lem n = ground arith
