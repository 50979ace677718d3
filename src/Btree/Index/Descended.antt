-- ===== src/Btree/Index/Descended.antt =====
-- What a walk along the leaves collects from the leaf where a descent ends.
use bsondb.Common.{
  ℕ, ◌≤◌, ◌<◌, ◌≡◌, refl, sym, ap, subst, ◌∙◌, List, [], ◌∷◌, ◌++◌, Bool, true, false, length, All,
  length-append, arith,
}
use bsondb.Bson.Result.{ok}
use bsondb.Mmap.{MmapFile, Outcome}
use bsondb.Storage.Access.{read_u64-field}
use bsondb.Btree.Key.Rank.{rank}
use bsondb.Btree.Layout.{current_root}
use bsondb.Btree.Leaf.{Entry, IsEntry, All-split}
use bsondb.Btree.Chain.{Chain, chain_hits}
use bsondb.Btree.Order.{
  IsAscending, hits, concat, hits-append, hits-none, IsAscending-append, chain_hits_lem,
}
use bsondb.Btree.Search.{rounds}
use bsondb.Btree.Tree.{
  Tree, leaf, branch, Forest, done, kid, page_of, Leaves, leaves, forest_leaves, depth,
  forest_depth, contents, contents-append, IsLinked,
}
use bsondb.Btree.Tree.Descent.{Lands}
use bsondb.Btree.Index.{size, forest_size, HoldsIndex}

mutual
  unfolding size depth leaves

  pub depth-size : (t : Tree) → depth t < size t
  depth-size (leaf page es) = omega arith
  depth-size (branch page t f) = omega (arith, depth-size t, forest_depth-size f)

  forest_depth-size : (f : Forest) → forest_depth f ≤ forest_size f
  forest_depth-size done = omega arith
  forest_depth-size (kid key t f) = omega (arith, depth-size t, forest_depth-size f)

mutual
  unfolding size leaves

  pub leaves-size : (t : Tree) → length (leaves t) ≤ size t
  leaves-size (leaf page es) = omega arith
  leaves-size (branch page t f) =
      omega (arith, length-append (leaves t) (forest_leaves f), leaves-size t, forest_leaves-size f)

  forest_leaves-size : (f : Forest) → length (forest_leaves f) ≤ forest_size f
  forest_leaves-size done = omega arith
  forest_leaves-size (kid key t f) =
      omega (arith, length-append (leaves t) (forest_leaves f), leaves-size t, forest_leaves-size f)

abbrev pub lists : Leaves → List (List Entry)
lists [] = []
lists ((page, es) ∷ ls) = es ∷ lists ls

pub concat-lists : (ls : Leaves) → concat (lists ls) ≡ contents ls
concat-lists [] = refl
concat-lists ((page, es) ∷ ls) = ap (λ t. es ++ t) (concat-lists ls)

pub length-lists : (ls : Leaves) → length (lists ls) ≡ length ls
length-lists [] = refl
length-lists ((page, es) ∷ ls) = omega (arith, length-lists ls)

pub IsLinked-Chain :
    (bytes : List ℕ) (p : ℕ) (ls : Leaves) → IsLinked bytes p ls → Chain bytes p (lists ls)
IsLinked-Chain bytes p [] e = e
IsLinked-Chain bytes p ((q, es) ∷ ls) (e, (pos, (next, h, l))) =
    subst (λ (k : ℕ). Chain bytes k (es ∷ lists ls)) (sym e)
      (pos, (next, h, IsLinked-Chain bytes next ls l))

IsLinked-suffix :
    (bytes : List ℕ) (p q : ℕ) (es : List Entry) (xs ys : Leaves)
    → IsLinked bytes p (xs ++ (q, es) ∷ ys)
    → IsLinked bytes q ((q, es) ∷ ys)
IsLinked-suffix bytes p q es [] ys (e, l) = (refl, l)
IsLinked-suffix bytes p q es ((x, fs) ∷ xs) ys (e, (pos, (next, h, l))) =
    IsLinked-suffix bytes next q es xs ys l

-- Two tests that agree on entries collect the same.
pub hits-agree :
    (f g : Entry → Bool)
    → ((e : Entry) → IsEntry e → f e ≡ g e)
    → (es : List Entry) → All IsEntry es
    → hits f es ≡ hits g es
hits-agree f g same [] h = refl
hits-agree f g same (e ∷ es) (h, hs) = rw (same e h, hits-agree f g same es hs)

both : (P Q : Entry → Type 0) (es : List Entry) → All P es → All Q es → All (λ e. P e × Q e) es
both P Q [] ps qs = tt
both P Q (e ∷ es) (p, ps) (q, qs) = ((p, q), both P Q es ps qs)

module _ (file : MmapFile) (t : Tree) (h : HoldsIndex file t) where
  pub many_rounds : size t < rounds file
  many_rounds = omega (arith, h.capacity)

  pub current_root-HoldsIndex : current_root file ≡ (ok (page_of t), file)
  unfolding current_root
  current_root-HoldsIndex =
      read_u64-field file h.mapped 16 (page_of t) (omega (arith, h.capacity)) h.root_field
        h.root_small

  module _ (P : Entry → Type 0) (run : ℕ → Outcome ℕ) (bound : ℕ)
      (l : Lands P (leaves t) run file bound) where
    pub chained : Chain file.bytes l.page (l.es ∷ lists l.after)
    chained = IsLinked-Chain file.bytes l.page ((l.page, l.es) ∷ l.after) (
        IsLinked-suffix file.bytes h.first l.page l.es l.before l.after
          (subst (IsLinked file.bytes h.first) l.split h.linked))

    pub enough_rounds : length (l.es ∷ lists l.after) < rounds file
    enough_rounds = omega (
      arith,
      length-lists l.after,
      ap (λ x. length x) l.split,
      length-append l.before ((l.page, l.es) ∷ l.after),
      leaves-size t,
      many_rounds,
    )

    rest_split : contents (leaves t) ≡ contents l.before ++ (l.es ++ contents l.after)
    rest_split = ap contents l.split ∙ contents-append l.before ((l.page, l.es) ∷ l.after)

    -- Where the entries before that leaf are no hits, the walk collects all hits of the index.
    pub found_all :
        (stop hit : Entry → Bool)
        → ((e f : Entry)
            → IsEntry e
            → IsEntry f
            → rank e.key ≤ rank f.key
            → stop e ≡ true
            → hit f ≡ false)
        → ((e : Entry) → IsEntry e × P e → hit e ≡ false)
        → chain_hits stop hit (l.es ∷ lists l.after) ≡ hits hit (contents (leaves t))
    found_all stop hit past before =
        let all = subst (All IsEntry) rest_split h.entries in
        let sorted = subst IsAscending rest_split h.ascending in
        let (eb, ea) = All-split IsEntry (contents l.before) (l.es ++ contents l.after) all in
        let same = ap (λ x. l.es ++ x) (concat-lists l.after) in
        chain_hits_lem stop hit past (l.es ∷ lists l.after) (subst (All IsEntry) (sym same) ea) (
          subst IsAscending (sym same)
            (IsAscending-append (contents l.before) (l.es ++ contents l.after) sorted))
        ∙ ap (hits hit) same
        ∙ sym (
            ap (hits hit) rest_split
            ∙ hits-append hit (contents l.before) (l.es ++ contents l.after)
            ∙ ap (λ x. x ++ hits hit (l.es ++ contents l.after))
                (hits-none hit (λ e. IsEntry e × P e) before (contents l.before)
                  (both IsEntry P (contents l.before) eb l.below)))
