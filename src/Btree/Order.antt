-- ===== src/Btree/Order.antt =====
-- Entries in ascending order of their keys, and what that says of a walk that stops early.
use Prim.Native.Nat.{Ordering, compare}
use bsondb.Common.{
  ℕ, ◌≤◌, ◌<◌, ◌≡◌, ◌↔◌, refl, sym, ap, inl, inr, List, [], ◌∷◌, ◌++◌, Bool, true, false,
  if◌then◌else◌, All, Bool-cases, arith,
}
use bsondb.Btree.Key.{key_cmp}
use bsondb.Btree.Key.Rank.{IsKey, rank, key_cmp_lem}
use bsondb.Btree.Leaf.{Entry, IsEntry, All-split}
use bsondb.Btree.Search.{is_less, is_equal, is_greater}
use bsondb.Btree.Chain.{hits_before, stops, chain_hits}

abbrev pub IsAscending : List Entry → Type 0
IsAscending [] = Unit
IsAscending (e ∷ es) = All (λ f. rank e.key ≤ rank f.key) es × IsAscending es

-- The offsets of all entries that pass a test.
abbrev pub hits : (Entry → Bool) → List Entry → List ℕ
hits hit [] = []
hits hit (e ∷ es) = if hit e then e.offset ∷ hits hit es else hits hit es

abbrev pub concat : List (List Entry) → List Entry
concat [] = []
concat (es ∷ ess) = es ++ concat ess

module _ (a b : List ℕ) (ha : IsKey a) (hb : IsKey b) where
  by_rank :
      (o : Ordering) (m n : ℕ)
      → o ≡ compare m n
      → ((is_less o ≡ true) ↔ (m < n))
        × ((is_equal o ≡ true) ↔ (m ≡ n))
        × ((is_greater o ≡ true) ↔ (n < m))
  by_rank o m n e = ground arith

  pub less_iff : (is_less (key_cmp a b) ≡ true) ↔ (rank a < rank b)
  less_iff = (by_rank (key_cmp a b) (rank a) (rank b) (key_cmp_lem a b ha hb)).0

  pub equal_iff : (is_equal (key_cmp a b) ≡ true) ↔ (rank a ≡ rank b)
  equal_iff = (by_rank (key_cmp a b) (rank a) (rank b) (key_cmp_lem a b ha hb)).1

  pub greater_iff : (is_greater (key_cmp a b) ≡ true) ↔ (rank b < rank a)
  greater_iff = (by_rank (key_cmp a b) (rank a) (rank b) (key_cmp_lem a b ha hb)).2

pub IsAscending-append : (xs ys : List Entry) → IsAscending (xs ++ ys) → IsAscending ys
IsAscending-append [] ys a = a
IsAscending-append (x ∷ xs) ys (least, a) = IsAscending-append xs ys a

module _ (hit : Entry → Bool) where
  pub hits-append : (xs ys : List Entry) → hits hit (xs ++ ys) ≡ hits hit xs ++ hits hit ys
  hits-append [] ys = refl
  hits-append (x ∷ xs) ys = elim (Bool-cases (hit x)) [
    | inl t ↦ rw (t, hits-append xs ys)
    | inr f ↦ rw (f, hits-append xs ys)
  ]

  -- Of entries that miss, nothing is collected.
  pub hits-none :
      (P : Entry → Type 0)
      → ((e : Entry) → P e → hit e ≡ false)
      → (es : List Entry) → All P es
      → hits hit es ≡ []
  hits-none P miss [] h = refl
  hits-none P miss (e ∷ es) (p, ps) = rw (miss e p, hits-none P miss es ps)

-- A walk that stops at an entry only where it and all after it are no hits.
module _ (stop hit : Entry → Bool)
    (past : (e f : Entry)
      → IsEntry e
      → IsEntry f
      → rank e.key ≤ rank f.key
      → stop e ≡ true
      → hit f ≡ false) where
  none-after :
      (e : Entry) (es : List Entry)
      → IsEntry e
      → stop e ≡ true
      → All IsEntry es
      → All (λ f. rank e.key ≤ rank f.key) es
      → hits hit es ≡ []
  none-after e [] h t hs least = refl
  none-after e (f ∷ es) h t (hf, hs) (le, least) =
      rw (past e f h hf le t, none-after e es h t hs least)

  -- Over sorted entries it misses nothing.
  hits_before_lem :
      (es more : List Entry)
      → All IsEntry (es ++ more)
      → IsAscending (es ++ more)
      → hits_before stop hit es ++ (if stops stop hit es then [] else hits hit more)
        ≡ hits hit (es ++ more)
  hits_before_lem [] more h a = refl
  hits_before_lem (e ∷ es) more (h, hs) (least, a) = elim (Bool-cases (stop e)) [
    | inl t ↦ rw (t, past e e h h (omega arith) t) (sym (none-after e (es ++ more) h t hs least))
    | inr f ↦ elim (Bool-cases (hit e)) [
      | inl here ↦ rw (f, here) (ap (λ t. e.offset ∷ t) (hits_before_lem es more hs a))
      | inr miss ↦ rw (f, miss) (hits_before_lem es more hs a)
    ]
  ]

  pub chain_hits_lem :
      (ess : List (List Entry))
      → All IsEntry (concat ess)
      → IsAscending (concat ess)
      → chain_hits stop hit ess ≡ hits hit (concat ess)
  chain_hits_lem [] h a = refl
  chain_hits_lem (es ∷ ess) h a =
      rw
        (chain_hits_lem ess (All-split IsEntry es (concat ess) h).1
          (IsAscending-append es (concat ess) a))
        (hits_before_lem es (concat ess) h a)
