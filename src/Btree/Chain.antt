-- ===== src/Btree/Chain.antt =====
-- Walks along a chain of leaves that collect offsets: each entry may stop the walk or be collected.
pub mod Lookup
pub mod Range
pub mod Live
use bsondb.Common.{
  ℕ, zero, suc, ◌+◌, ◌≤◌, ◌≡◌, refl, sym, ap, ◌∙◌, List, [], ◌∷◌, ◌++◌, Bool, true, false, ◌==◌,
  if◌then◌else◌, arith,
}
use bsondb.Bson.Result
use bsondb.Bson.Result.{Result, ok, err}
use bsondb.Mmap.{MmapFile, Outcome}
use bsondb.Mmap.Exec.{Exec, pure, continue, ◌>>=◌}
use bsondb.Btree.Layout.{page_link}
use bsondb.Btree.Leaf.{Entry, HoldsLeaf}
use bsondb.Btree.Offsets.{OffsetList, offset_list_push}

pub not_zero : (k : ℕ) → 1 ≤ k → (k == 0) ≡ false
not_zero k h = ground arith

-- Leaves linked from page `page` on, with the entries of each; the last has no link.
abbrev pub Chain : List ℕ → ℕ → List (List Entry) → Type 0
Chain bytes page [] = page ≡ 0
Chain bytes page (es ∷ ess) =
    (1 ≤ page) × ((next : ℕ) × HoldsLeaf bytes page es next × Chain bytes next ess)

module _ (stop hit : Entry → Bool) where
  -- The offsets that are collected up to the entry that stops the walk, and whether there is one.
  abbrev pub hits_before : List Entry → List ℕ
  hits_before [] = []
  hits_before (e ∷ es) =
      if stop e then [] else if hit e then e.offset ∷ hits_before es else hits_before es

  abbrev pub stops : List Entry → Bool
  stops [] = false
  stops (e ∷ es) = if stop e then true else stops es

  abbrev pub chain_hits : List (List Entry) → List ℕ
  chain_hits [] = []
  chain_hits (es ∷ ess) = hits_before es ++ (if stops es then [] else chain_hits ess)

module _ (can_alloc : ℕ → Bool) where
  abbrev pub push_all : OffsetList → List ℕ → Result OffsetList
  push_all out [] = ok out
  push_all out (o ∷ os) = Result.◌>>=◌ (offset_list_push can_alloc out o) (λ out'. push_all out' os)

  pushed :
      (r : Result OffsetList) (xs ys : List ℕ)
      → ((o : OffsetList)
          → push_all o (xs ++ ys) ≡ Result.◌>>=◌ (push_all o xs) (λ o'. push_all o' ys))
      → Result.◌>>=◌ r (λ o. push_all o (xs ++ ys))
        ≡ Result.◌>>=◌ (Result.◌>>=◌ r (λ o. push_all o xs)) (λ o. push_all o ys)
  pushed (ok o) xs ys again = again o
  pushed (err s) xs ys again = refl
  pushed Result.fault xs ys again = refl
  pushed Result.stuck xs ys again = refl

  pub push_all-append :
      (out : OffsetList) (xs ys : List ℕ)
      → push_all out (xs ++ ys) ≡ Result.◌>>=◌ (push_all out xs) (λ out'. push_all out' ys)
  push_all-append out [] ys = refl
  push_all-append out (x ∷ xs) ys =
      pushed (offset_list_push can_alloc out x) xs ys (λ o. push_all-append o xs ys)

  abbrev pub with_flag : Bool → Result OffsetList → Result (Bool × OffsetList)
  with_flag b r = Result.◌>>=◌ r (λ o. ok (b, o))

  module _ (file : MmapFile) where
    -- The walk goes on after a push.
    pub after_push :
        (r : Result OffsetList) (walk : OffsetList → Exec (Bool × OffsetList)) (b : Bool)
        (os : List ℕ)
        → ((o : OffsetList) → walk o file ≡ (with_flag b (push_all o os), file))
        → continue r walk file ≡ (with_flag b (Result.◌>>=◌ r (λ o. push_all o os)), file)
    after_push (ok o) walk b os again = again o
    after_push (err s) walk b os again = refl
    after_push Result.fault walk b os again = refl
    after_push Result.stuck walk b os again = refl

    -- What a walk does after a leaf.
    abbrev pub next_leaf :
        (ℕ → OffsetList → Exec OffsetList) → ℕ → Bool × OffsetList → Exec OffsetList
    next_leaf walk leaf (done, out') =
        if done then pure out' else (do next ← page_link leaf; walk next out')

    pub after_leaf :
        (r : Result OffsetList) (walk : ℕ → OffsetList → Exec OffsetList) (leaf next : ℕ) (d : Bool)
        (os : List ℕ)
        → page_link leaf file ≡ (ok next, file)
        → ((o : OffsetList) → walk next o file ≡ (push_all o os, file))
        → continue (with_flag d r) (next_leaf walk leaf) file
          ≡ (Result.◌>>=◌ r (λ o. push_all o (if d then [] else os)), file)
    after_leaf (ok o) walk leaf next true os link again = refl
    after_leaf (ok o) walk leaf next false os link again = rw link (again o)
    after_leaf (err s) walk leaf next d os link again = refl
    after_leaf Result.fault walk leaf next d os link again = refl
    after_leaf Result.stuck walk leaf next d os link again = refl
