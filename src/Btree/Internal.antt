-- ===== src/Btree/Internal.antt =====
-- The entries of an internal page as data, and the child that `find_child` picks.
use bsondb.Common.{
  ℕ, ◌+◌, ◌*◌, ◌^◌, ◌≤◌, ◌<◌, ◌≡◌, refl, sym, ap, subst, ◌∙◌, inl, inr, List, [], ◌∷◌, ◌++◌, true,
  if◌then◌else◌, length, drop, slice, All, to_le, length-to_le, length-append, append_assoc,
  Bool-cases, arith,
}
use bsondb.Common.Regions.{slice_there, drop_behind, drop-slice}
use bsondb.Bson.Result.{ok}
use bsondb.Mmap.{MmapFile}
use bsondb.Mmap.Exec.{peek, read_u64}
use bsondb.Storage.Access.{peek-slice, read_u64-field}
use bsondb.Btree.Key.{key_cmp}
use bsondb.Btree.Key.Rank.{IsKey}
use bsondb.Btree.Layout.{
  page_off, internal_entry_off, internal_entry, page_type, page_entries, page_link,
  page_type_internal,
}
use bsondb.Btree.Leaf.{All-split, peek_u8-field, read_u16-field}
use bsondb.Btree.Search.{is_less, find_child}

pub record Kid : Type 0 where
  pub key : List ℕ
  pub child : ℕ

pub record IsKid (k : Kid) : Type 0 where
  pub key : IsKey k.key
  pub child : k.child < 2 ^ 64

abbrev pub kid_bytes : List Kid → List ℕ
kid_bytes [] = []
kid_bytes (k ∷ ks) = internal_entry k.key k.child ++ kid_bytes ks

pub length-kid_bytes : (ks : List Kid) → All IsKid ks → length (kid_bytes ks) ≡ length ks * 21
length-kid_bytes [] h = omega arith
length-kid_bytes (k ∷ ks) (h, hs) = omega (
  arith,
  length-append (internal_entry k.key k.child) (kid_bytes ks),
  length-append k.key (to_le 8 k.child),
  length-to_le 8 k.child,
  h.key.sized,
  length-kid_bytes ks hs,
)

pub kid_bytes-append : (xs ys : List Kid) → kid_bytes (xs ++ ys) ≡ kid_bytes xs ++ kid_bytes ys
kid_bytes-append [] ys = refl
kid_bytes-append (x ∷ xs) ys =
    ap (λ t. internal_entry x.key x.child ++ t) (kid_bytes-append xs ys)
    ∙ sym (append_assoc (internal_entry x.key x.child) (kid_bytes xs) (kid_bytes ys))

parts_of :
    (k : Kid) (rest more : List ℕ)
    → (internal_entry k.key k.child ++ rest) ++ more ≡ k.key ++ (to_le 8 k.child ++ (rest ++ more))
parts_of k rest more = simp append_assoc

-- Page `page` of the file is internal, with the leftmost child and the entries `ks`.
pub record HoldsInternal (bytes : List ℕ) (page leftmost : ℕ) (ks : List Kid) : Type 0 where
  pub fits : page_off page + 4096 ≤ length bytes
  pub type_field : slice bytes (page_off page) 1 ≡ page_type_internal ∷ []
  pub count_field : slice bytes (page_off page + 2) 2 ≡ to_le 2 (length ks)
  pub link_field : slice bytes (page_off page + 8) 8 ≡ to_le 8 leftmost
  pub entries_field : slice bytes (page_off page + 16) (length ks * 21) ≡ kid_bytes ks
  pub room : length ks ≤ 190
  pub entries : All IsKid ks
  pub leftmost_small : leftmost < 2 ^ 64

-- The place where the loop over the keys stops, and the child there.
abbrev pub choose : List ℕ → ℕ → ℕ → List Kid → ℕ × ℕ
choose key i child [] = (i, child)
choose key i child (k ∷ ks) =
    if is_less (key_cmp key k.key) then (i, child) else choose key (i + 1) k.child ks

module _ (file : MmapFile) (mapped : file.mapped ≡ true) (page leftmost : ℕ) (all : List Kid)
    (h : HoldsInternal file.bytes page leftmost all) where
  pub page_type-internal : page_type page file ≡ (ok page_type_internal, file)
  unfolding page_type
  page_type-internal = peek_u8-field file mapped (page_off page) page_type_internal h.type_field

  pub page_entries-internal : page_entries page file ≡ (ok (length all), file)
  unfolding page_entries
  page_entries-internal =
      read_u16-field file mapped (page_off page + 2) (length all) (omega (arith, h.fits))
        h.count_field (omega (arith, h.room))

  pub page_link-internal : page_link page file ≡ (ok leftmost, file)
  unfolding page_link
  page_link-internal =
      read_u64-field file mapped (page_off page + 8) leftmost (omega (arith, h.fits)) h.link_field
        h.leftmost_small

  module _ (xs : List Kid) (k : Kid) (ys : List Kid) (split : all ≡ xs ++ k ∷ ys) where
    abbrev slot : ℕ
    slot = internal_entry_off page (length xs)

    parts : All IsKid xs × All IsKid (k ∷ ys)
    parts = All-split IsKid xs (k ∷ ys) (subst (All IsKid) split h.entries)

    slot_fits : slot + 21 ≤ length file.bytes
    slot_fits = omega (arith, h.fits, h.room, ap (λ t. length t) split, length-append xs (k ∷ ys))

    abbrev tail : List ℕ
    tail = drop (length all * 21) (drop (page_off page + 16) file.bytes)

    from_slot : drop slot file.bytes ≡ k.key ++ (to_le 8 k.child ++ (kid_bytes ys ++ tail))
    from_slot =
        drop_behind file.bytes (page_off page + 16) (length xs * 21) (kid_bytes xs)
          (kid_bytes (k ∷ ys) ++ tail)
          (drop-slice file.bytes (page_off page + 16) (length all * 21) (kid_bytes all)
              h.entries_field
            ∙ ap (λ t. t ++ tail) (ap kid_bytes split ∙ kid_bytes-append xs (k ∷ ys))
            ∙ append_assoc (kid_bytes xs) (kid_bytes (k ∷ ys)) tail)
          (length-kid_bytes xs parts.0)
        ∙ parts_of k (kid_bytes ys) tail

    peek_kid : peek slot 13 file ≡ (ok k.key, file)
    peek_kid =
        peek-slice file mapped slot 13 (omega (arith, slot_fits))
        ∙ ap (λ t. (ok t, file))
            (slice_there file.bytes slot 13 k.key (to_le 8 k.child ++ (kid_bytes ys ++ tail))
              from_slot parts.1.0.key.sized)

    read_child : read_u64 (slot + 13) file ≡ (ok k.child, file)
    read_child =
        read_u64-field file mapped (slot + 13) k.child (omega (arith, slot_fits))
          (slice_there file.bytes (slot + 13) 8 (to_le 8 k.child) (kid_bytes ys ++ tail)
            (drop_behind file.bytes slot 13 k.key (to_le 8 k.child ++ (kid_bytes ys ++ tail))
              from_slot parts.1.0.key.sized)
            (length-to_le 8 k.child))
          parts.1.0.child

  pub find_child_lem :
      (ys xs : List Kid) (child : ℕ) (key : List ℕ)
      → all ≡ xs ++ ys
      → find_child (length ys) page (length xs) child key file
        ≡ (ok (choose key (length xs) child ys), file)
  unfolding find_child
  find_child_lem [] xs child key split = refl
  find_child_lem (k ∷ ys) xs child key split =
      let next_index : length (xs ++ k ∷ []) ≡ length xs + 1 =
        omega (arith, length-append xs (k ∷ [])) in
      elim (Bool-cases (is_less (key_cmp key k.key))) [
        | inl less ↦ rw (peek_kid xs k ys split, less)
        | inr not_less ↦
            rw (peek_kid xs k ys split, not_less, read_child xs k ys split)
              (ap (λ (i : ℕ). find_child (length ys) page i k.child key file) (sym next_index)
                ∙ find_child_lem ys (xs ++ k ∷ []) k.child key
                    (split ∙ sym (append_assoc xs (k ∷ []) ys))
                ∙ ap (λ (i : ℕ). (ok (choose key i k.child ys), file)) next_index)
      ]
