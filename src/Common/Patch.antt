-- ===== src/Common/Patch.antt =====
-- Bytes overwritten in place, and what a read of other or the same bytes sees afterwards.
use Prim.Native.Nat.{ℕ, zero, suc, ◌+◌, ◌≤◌}
use mathlib.Core.Path.{◌≡◌, refl, ap}
use mathlib.Core.List.{List, [], ◌∷◌, ◌++◌}
use native.Mathlib.Omega.{arith}
use bsondb.Common.Lists.{length, drop, slice, length-append, length-drop, take-append}

module _ {ℓ} {A : Type ℓ} (bs : List A) where
  -- `bs` written over `xs` from `i` on.
  abbrev pub patch : ℕ → List A → List A
  patch zero xs = bs ++ drop (length bs) xs
  patch (suc i) [] = []
  patch (suc i) (x ∷ xs) = x ∷ patch i xs

  pub length-patch :
      (i : ℕ) (xs : List A) → i + length bs ≤ length xs → length (patch i xs) ≡ length xs
  length-patch zero xs h =
      omega (arith, length-append bs (drop (length bs) xs), length-drop (length bs) xs)
  length-patch (suc i) [] h = refl
  length-patch (suc i) (x ∷ xs) h = ap suc (length-patch i xs (omega arith))

  -- A patch behind the first `j` elements, seen from `j` on.
  pub drop-patch :
      (j i k : ℕ) (xs : List A)
      → i ≡ j + k
      → i ≤ length xs
      → drop j (patch i xs) ≡ patch k (drop j xs)
  drop-patch zero i k xs e h = ap (λ t. patch t xs) same
    where
      same : i ≡ k
      same = omega arith
  drop-patch (suc j) zero k xs e h = absurd (omega arith)
  drop-patch (suc j) (suc i) k [] e h = elim h [ ]
  drop-patch (suc j) (suc i) k (x ∷ xs) e h = drop-patch j i k xs (omega arith) (omega arith)

  -- Elements before the patch stay.
  pub slice-patch_before :
      (i j n : ℕ) (xs : List A) → j + n ≤ i → slice (patch i xs) j n ≡ slice xs j n
  slice-patch_before zero j zero xs h = refl
  slice-patch_before zero j (suc n) xs h = absurd (omega arith)
  slice-patch_before (suc i) j n [] h = refl
  slice-patch_before (suc i) zero zero (x ∷ xs) h = refl
  slice-patch_before (suc i) zero (suc n) (x ∷ xs) h =
      ap (λ t. x ∷ t) (slice-patch_before i 0 n xs (omega arith))
  slice-patch_before (suc i) (suc j) n (x ∷ xs) h = slice-patch_before i j n xs (omega arith)

  pub slice-patch_self :
      (i : ℕ) (xs : List A) → i ≤ length xs → slice (patch i xs) i (length bs) ≡ bs
  slice-patch_self zero xs h = take-append bs (drop (length bs) xs)
  slice-patch_self (suc i) [] h = elim h [ ]
  slice-patch_self (suc i) (x ∷ xs) h = slice-patch_self i xs (omega arith)

  pub patch-append :
      (xs ys : List A) → patch (length xs) (xs ++ ys) ≡ xs ++ (bs ++ drop (length bs) ys)
  patch-append [] ys = refl
  patch-append (x ∷ xs) ys = ap (λ t. x ∷ t) (patch-append xs ys)

module _ {ℓ} {A : Type ℓ} where
  drop_covered :
      (bs xs : List A) (j : ℕ)
      → length bs ≤ j
      → length bs ≤ length xs
      → drop j (bs ++ drop (length bs) xs) ≡ drop j xs
  drop_covered [] xs j h hx = refl
  drop_covered (b ∷ bs) [] j h hx = elim hx [ ]
  drop_covered (b ∷ bs) (x ∷ xs) zero h hx = elim h [ ]
  drop_covered (b ∷ bs) (x ∷ xs) (suc j) h hx = drop_covered bs xs j (omega arith) (omega arith)

  -- Elements behind the patch stay.
  pub drop-patch_after :
      (bs : List A) (i j : ℕ) (xs : List A)
      → i + length bs ≤ j
      → i + length bs ≤ length xs
      → drop j (patch bs i xs) ≡ drop j xs
  drop-patch_after bs zero j xs h hx = drop_covered bs xs j (omega arith) (omega arith)
  drop-patch_after bs (suc i) j [] h hx = absurd (omega arith)
  drop-patch_after bs (suc i) zero (x ∷ xs) h hx = absurd (omega arith)
  drop-patch_after bs (suc i) (suc j) (x ∷ xs) h hx =
      drop-patch_after bs i j xs (omega arith) (omega arith)
