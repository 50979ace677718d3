-- ===== src/Common/Bits.antt =====
-- Masks on bytes as arithmetic, by tables over all bytes, and `bit_or` on disjoint digits.
use Prim.Native.Nat.{
  ℕ, zero, suc, ◌+◌, ◌*◌, ◌/◌, ◌%◌, ◌≤◌, ◌<◌, max, min, bit_and, bit_or, digits, bit_or-bitwise,
  bit_and-bitwise,
}
use mathlib.Core.Path.{◌≡◌, refl, sym, ◌∙◌, ap, subst}
use mathlib.Core.Bool.{Bool, true, false}
use native.Mathlib.Omega.{arith}
use bsondb.Common.Tests.{◌==◌, ==_iff, if◌then◌else◌}

-- A test of every number below a bound, by evaluation.
every : (ℕ → Bool) → ℕ → Bool
every test zero = true
every test (suc k) = if test k then every test k else false

every→at : (test : ℕ → Bool) (k i : ℕ) → i < k → every test k ≡ true → test i ≡ true
unfolding every
every→at test zero i lt e = elim lt [ ]
every→at test (suc k) i lt e = ground (arith, every→at test k i)

-- Two functions that agree on every byte by evaluation.
agree_on_bytes : (f g : ℕ → ℕ) → every (λ x. f x == g x) 256 ≡ true → (b : ℕ) → b < 256 → f b ≡ g b
agree_on_bytes f g table b h = (==_iff _ _).0 (every→at (λ x. f x == g x) 256 b h table)

-- The masks that keep the top bits.
pub and_e0 : (b : ℕ) → b < 256 → bit_and b 0xe0 ≡ b / 32 * 32
unfolding every
and_e0 = agree_on_bytes (λ b. bit_and b 0xe0) (λ b. b / 32 * 32) refl

pub and_f0 : (b : ℕ) → b < 256 → bit_and b 0xf0 ≡ b / 16 * 16
unfolding every
and_f0 = agree_on_bytes (λ b. bit_and b 0xf0) (λ b. b / 16 * 16) refl

pub and_f8 : (b : ℕ) → b < 256 → bit_and b 0xf8 ≡ b / 8 * 8
unfolding every
and_f8 = agree_on_bytes (λ b. bit_and b 0xf8) (λ b. b / 8 * 8) refl

pub and_c0 : (b : ℕ) → b < 256 → bit_and b 0xc0 ≡ b / 64 * 64
unfolding every
and_c0 = agree_on_bytes (λ b. bit_and b 0xc0) (λ b. b / 64 * 64) refl

-- The masks that keep the low bits.
pub and_1f : (b : ℕ) → b < 256 → bit_and b 0x1f ≡ b % 32
unfolding every
and_1f = agree_on_bytes (λ b. bit_and b 0x1f) (λ b. b % 32) refl

pub and_0f : (b : ℕ) → b < 256 → bit_and b 0x0f ≡ b % 16
unfolding every
and_0f = agree_on_bytes (λ b. bit_and b 0x0f) (λ b. b % 16) refl

pub and_07 : (b : ℕ) → b < 256 → bit_and b 0x07 ≡ b % 8
unfolding every
and_07 = agree_on_bytes (λ b. bit_and b 0x07) (λ b. b % 8) refl

pub and_3f : (b : ℕ) → b < 256 → bit_and b 0x3f ≡ b % 64
unfolding every
and_3f = agree_on_bytes (λ b. bit_and b 0x3f) (λ b. b % 64) refl

-- `bit_or` as the recursion on digits that it stands for, with a count of digits to go.
abbrev or_in : ℕ → ℕ → ℕ → ℕ
or_in count a b = digits (λ y. y) max count a b

-- On multiples of `m` and numbers below `m` it is the sum.
abbrev OrIsSum : ℕ → Type 0
OrIsSum m = (count c b : ℕ) → c * m ≤ count → b < m → or_in count (c * m) b ≡ c * m + b

or_nothing : (count a : ℕ) → a ≤ count → or_in count a 0 ≡ a
or_nothing zero zero h = refl
or_nothing zero (suc a) h = elim h [ ]
or_nothing (suc count) zero h = refl
or_nothing (suc count) (suc a) h = omega (arith, or_nothing count (suc a / 2) (omega arith))

OrIsSum-one : OrIsSum 1
OrIsSum-one count c b h hb =
    subst (λ t. or_in count (c * 1) t ≡ c * 1 + t) nought (or_nothing count (c * 1) h ∙ omega arith)
  where
    nought : 0 ≡ b
    nought = omega arith

-- One more digit: `v` is the multiple of `m * 2`.
or_digit :
    (m count c b v : ℕ)
    → OrIsSum m
    → v ≡ c * m * 2
    → v ≤ count
    → b < m * 2
    → or_in count v b ≡ v + b
or_digit m zero c b zero sum e h hb = omega arith
or_digit m zero c b (suc a) sum e h hb = elim h [ ]
or_digit m (suc count) c b zero sum e h hb = omega arith
or_digit m (suc count) c b (suc a) sum e h hb = omega (
  arith,
  sum count c (b / 2) (omega arith) (omega arith),
  ap (λ (t : ℕ). or_in count t (b / 2)) half,
)
  where
    half : suc a / 2 ≡ c * m
    half = omega arith

OrIsSum-double : (m : ℕ) → OrIsSum m → OrIsSum (m * 2)
OrIsSum-double m sum count c b h hb = or_digit m count c b (c * (m * 2)) sum (omega arith) h hb

OrIsSum-six_digits : OrIsSum 64
OrIsSum-six_digits = OrIsSum-double 32 (
    OrIsSum-double 16
      (OrIsSum-double 8 (OrIsSum-double 4 (OrIsSum-double 2 (OrIsSum-double 1 OrIsSum-one)))))

-- `c << 6 | x` is a sum where `x` has at most six digits.
pub or_six : (c x : ℕ) → x < 64 → bit_or (c * 64) x ≡ c * 64 + x
or_six c x h = bit_or-bitwise (c * 64) x ∙ OrIsSum-six_digits (c * 64) c x (omega arith) h

-- `bit_and` in the same way: the digits in common.
abbrev and_in : ℕ → ℕ → ℕ → ℕ
and_in count a b = digits (λ _. 0) min count a b

least_right : (x y : ℕ) → min x y ≤ y
least_right x y = omega arith

and_in_le : (count a b : ℕ) → and_in count a b ≤ b
and_in_le zero a b = omega arith
and_in_le (suc count) zero b = omega arith
and_in_le (suc count) (suc a) b =
    omega (arith, and_in_le count (suc a / 2) (b / 2), least_right (suc a % 2) (b % 2))

pub bit_and_le : (a b : ℕ) → bit_and a b ≤ b
bit_and_le a b = subst (λ t. t ≤ b) (sym (bit_and-bitwise a b)) (and_in_le a a b)

and_in_even : (count a b : ℕ) → b % 2 ≡ 0 → and_in count a b % 2 ≡ 0
and_in_even zero a b e = refl
and_in_even (suc count) zero b e = refl
and_in_even (suc count) (suc a) b e = omega (arith, e, least_right (suc a % 2) (b % 2))

-- A mask without the lowest digit leaves an even number, and the lowest digit of that is 0.
pub bit_and-even : (a b : ℕ) → b % 2 ≡ 0 → bit_and a b % 2 ≡ 0
bit_and-even a b e = ap (λ (t : ℕ). t % 2) (bit_and-bitwise a b) ∙ and_in_even a a b e

and_in_one : (count a : ℕ) → a % 2 ≡ 0 → and_in count a 1 ≡ 0
and_in_one zero a e = refl
and_in_one (suc count) zero e = refl
and_in_one (suc count) (suc a) e =
    omega (arith, e, and_in_le count (suc a / 2) 0, least_left (suc a % 2) 1)
  where
    least_left : (x y : ℕ) → min x y ≤ x
    least_left x y = omega arith

pub bit_and-one : (a : ℕ) → a % 2 ≡ 0 → bit_and a 1 ≡ 0
bit_and-one a e = bit_and-bitwise a 1 ∙ and_in_one a a e
