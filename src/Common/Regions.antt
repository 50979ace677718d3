-- ===== src/Common/Regions.antt =====
-- A buffer seen from an offset on: what it begins with there, and what a read there gives.
use bsondb.Common.Lists.{
  length, take, drop, slice, length-drop, length-take, take-append, drop-append, take-append-drop,
}
use Prim.Native.Nat.{ℕ, zero, suc, ◌+◌, ◌≤◌}
use mathlib.Core.Path.{◌≡◌, refl, sym, ap, ◌∙◌}
use mathlib.Core.List.{List, [], ◌∷◌, ◌++◌}
use native.Mathlib.Omega.{arith}
use bsondb.Bson.Result.{ok, byte_at}

drop_nil : (n : ℕ) → drop {A = ℕ} n [] ≡ []
drop_nil zero = refl
drop_nil (suc n) = refl

pub drop_add : (m n : ℕ) (xs : List ℕ) → drop (m + n) xs ≡ drop n (drop m xs)
drop_add zero n xs = ap (λ (k : ℕ). drop k xs) (zero_add n)
  where
    zero_add : (n : ℕ) → 0 + n ≡ n
    zero_add n = omega arith
drop_add (suc m) n [] = drop_nil (suc m + n) ∙ sym (drop_nil n)
drop_add (suc m) n (x ∷ xs) = ap (λ (k : ℕ). drop k (x ∷ xs)) (suc_add m n) ∙ drop_add m n xs
  where
    suc_add : (m n : ℕ) → suc m + n ≡ suc (m + n)
    suc_add m n = omega arith

pub byte_at-drop : (i : ℕ) (bs : List ℕ) → byte_at bs i ≡ byte_at (drop i bs) 0
byte_at-drop zero bs = refl
byte_at-drop (suc i) [] = refl
byte_at-drop (suc i) (b ∷ bs) = byte_at-drop i bs

module _ (bytes : List ℕ) (a n : ℕ) (xs : List ℕ) where
  module _ (rest : List ℕ) (e : drop a bytes ≡ xs ++ rest) (len : length xs ≡ n) where
    -- What stands at `a`, and what follows it.
    pub slice_there : slice bytes a n ≡ xs
    slice_there =
        ap (λ t. take n t) e ∙ ap (λ (k : ℕ). take k (xs ++ rest)) (sym len) ∙ take-append xs rest

    pub drop_behind : drop (a + n) bytes ≡ rest
    drop_behind =
        drop_add a n bytes
        ∙ ap (λ t. drop n t) e
        ∙ ap (λ (k : ℕ). drop k (xs ++ rest)) (sym len)
        ∙ drop-append xs rest

  -- A slice, with what follows it.
  pub drop-slice : slice bytes a n ≡ xs → drop a bytes ≡ xs ++ drop n (drop a bytes)
  drop-slice e = sym (take-append-drop n (drop a bytes)) ∙ ap (λ t. t ++ drop n (drop a bytes)) e

  pub slice-inside : slice bytes a n ≡ xs → 1 ≤ n → length xs ≡ n → a + n ≤ length bytes
  slice-inside e some len =
      omega (arith, ap (λ t. length t) e, length-take n (drop a bytes), length-drop a bytes)

pub byte_at-slice : (bytes : List ℕ) (a b : ℕ) → slice bytes a 1 ≡ b ∷ [] → byte_at bytes a ≡ ok b
byte_at-slice bytes a b e =
    byte_at-drop a bytes ∙ ap (λ t. byte_at t 0) (drop-slice bytes a 1 (b ∷ []) e)
