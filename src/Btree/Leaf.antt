-- ===== src/Btree/Leaf.antt =====
-- The entries of a leaf page as data, and what the accessors read of them.
use bsondb.Common.{
  ℕ, ◌+◌, ◌*◌, ◌^◌, ◌≤◌, ◌<◌, ◌≡◌, refl, sym, ap, subst, ◌∙◌, List, [], ◌∷◌, ◌++◌, true,
  if◌then◌else◌, length, drop, slice, All, to_le, length-to_le, from_le-to_le, length-append,
  append_assoc, arith,
}
use bsondb.Common.Regions.{slice_there, drop_behind, drop-slice, byte_at-slice}
use bsondb.Bson.Result.{ok, fault, byte_at}
use bsondb.Mmap.{MmapFile}
use bsondb.Mmap.Exec.{peek, read_u16}
use bsondb.Storage.Access.{peek-slice, read_u64-field}
use bsondb.Storage.Records.{peek_u8}
use bsondb.Btree.Key.Rank.{IsKey}
use bsondb.Btree.Layout.{
  page_off, leaf_entry_off, leaf_entry, page_type, page_entries, page_link, page_type_leaf,
  read_leaf_offset, read_leaf_flags,
}

pub record Entry : Type 0 where
  pub key : List ℕ
  pub offset : ℕ
  pub flags : ℕ

pub record IsEntry (e : Entry) : Type 0 where
  pub key : IsKey e.key
  pub offset : e.offset < 2 ^ 64

abbrev pub encode : Entry → List ℕ
encode e = leaf_entry e.key e.offset e.flags

-- The entries as bytes, back to back.
abbrev pub entry_bytes : List Entry → List ℕ
entry_bytes [] = []
entry_bytes (e ∷ es) = encode e ++ entry_bytes es

length-encode : (e : Entry) → IsEntry e → length (encode e) ≡ 22
length-encode e h = omega (
  arith,
  length-append e.key (to_le 8 e.offset ++ (e.flags ∷ [])),
  length-append (to_le 8 e.offset) (e.flags ∷ []),
  length-to_le 8 e.offset,
  h.key.sized,
)

pub length-entry_bytes :
    (es : List Entry) → All IsEntry es → length (entry_bytes es) ≡ length es * 22
length-entry_bytes [] h = omega arith
length-entry_bytes (e ∷ es) (h, hs) =
    omega (
      arith,
      length-append (encode e) (entry_bytes es),
      length-encode e h,
      length-entry_bytes es hs,
    )

pub entry_bytes-append :
    (xs ys : List Entry) → entry_bytes (xs ++ ys) ≡ entry_bytes xs ++ entry_bytes ys
entry_bytes-append [] ys = refl
entry_bytes-append (x ∷ xs) ys =
    ap (λ t. encode x ++ t) (entry_bytes-append xs ys)
    ∙ sym (append_assoc (encode x) (entry_bytes xs) (entry_bytes ys))

pub All-split {ℓ} :
    {A : Type ℓ} (P : A → Type 0) (xs ys : List A) → All P (xs ++ ys) → All P xs × All P ys
All-split P [] ys h = (tt, h)
All-split P (x ∷ xs) ys (p, h) = let (hx, hy) = All-split P xs ys h in ((p, hx), hy)

parts_of :
    (e : Entry) (rest more : List ℕ)
    → (encode e ++ rest) ++ more ≡ e.key ++ (to_le 8 e.offset ++ (e.flags ∷ (rest ++ more)))
parts_of e rest more = simp append_assoc

-- Page `page` of the file is a leaf with the entries `es` and the link `next`.
pub record HoldsLeaf (bytes : List ℕ) (page : ℕ) (es : List Entry) (next : ℕ) : Type 0 where
  pub fits : page_off page + 4096 ≤ length bytes
  pub type_field : slice bytes (page_off page) 1 ≡ page_type_leaf ∷ []
  pub count_field : slice bytes (page_off page + 2) 2 ≡ to_le 2 (length es)
  pub link_field : slice bytes (page_off page + 8) 8 ≡ to_le 8 next
  pub entries_field : slice bytes (page_off page + 16) (length es * 22) ≡ entry_bytes es
  pub room : length es ≤ 180
  pub entries : All IsEntry es
  pub next_small : next < 2 ^ 64

module _ (file : MmapFile) (mapped : file.mapped ≡ true) where
  pub peek_u8-field :
      (off b : ℕ) → slice file.bytes off 1 ≡ b ∷ [] → peek_u8 off file ≡ (ok b, file)
  unfolding peek_u8
  peek_u8-field off b e =
      ap (λ m. (if m then byte_at file.bytes off else fault, file)) mapped
      ∙ ap (λ r. (r, file)) (byte_at-slice file.bytes off b e)

  pub read_u16-field :
      (off v : ℕ)
      → off + 2 ≤ length file.bytes
      → slice file.bytes off 2 ≡ to_le 2 v
      → v < 2 ^ 16
      → read_u16 off file ≡ (ok v, file)
  unfolding read_u16
  read_u16-field off v h e hv = rw (peek-slice file mapped off 2 h, e, from_le-to_le 2 v hv)

  module _ (page next : ℕ) (es : List Entry) (h : HoldsLeaf file.bytes page es next) where
    pub page_type-leaf : page_type page file ≡ (ok page_type_leaf, file)
    unfolding page_type
    page_type-leaf = peek_u8-field (page_off page) page_type_leaf h.type_field

    pub page_entries-leaf : page_entries page file ≡ (ok (length es), file)
    unfolding page_entries
    page_entries-leaf =
        read_u16-field (page_off page + 2) (length es) (omega (arith, h.fits)) h.count_field
          (omega (arith, h.room))

    pub page_link-leaf : page_link page file ≡ (ok next, file)
    unfolding page_link
    page_link-leaf =
        read_u64-field file mapped (page_off page + 8) next (omega (arith, h.fits)) h.link_field
          h.next_small

    module _ (xs : List Entry) (e : Entry) (ys : List Entry) (split : es ≡ xs ++ e ∷ ys) where
      abbrev slot : ℕ
      slot = leaf_entry_off page (length xs)

      parts : All IsEntry xs × All IsEntry (e ∷ ys)
      parts = All-split IsEntry xs (e ∷ ys) (subst (All IsEntry) split h.entries)

      pub slot_fits : slot + 22 ≤ length file.bytes
      slot_fits = omega (arith, h.fits, h.room, ap (λ t. length t) split, length-append xs (e ∷ ys))

      abbrev behind : List ℕ
      behind = entry_bytes ys ++ drop (length es * 22) (drop (page_off page + 16) file.bytes)

      from_slot : drop slot file.bytes ≡ e.key ++ (to_le 8 e.offset ++ (e.flags ∷ behind))
      from_slot =
          drop_behind file.bytes (page_off page + 16) (length xs * 22) (entry_bytes xs)
            (entry_bytes (e ∷ ys) ++ drop (length es * 22) (drop (page_off page + 16) file.bytes))
            (drop-slice file.bytes (page_off page + 16) (length es * 22) (entry_bytes es)
                h.entries_field
              ∙ ap (λ t. t ++ drop (length es * 22) (drop (page_off page + 16) file.bytes))
                  (ap entry_bytes split ∙ entry_bytes-append xs (e ∷ ys))
              ∙ append_assoc (entry_bytes xs) (entry_bytes (e ∷ ys))
                  (drop (length es * 22) (drop (page_off page + 16) file.bytes)))
            (length-entry_bytes xs parts.0)
          ∙ parts_of e (entry_bytes ys)
              (drop (length es * 22) (drop (page_off page + 16) file.bytes))

      pub key_bytes : slice file.bytes slot 13 ≡ e.key
      key_bytes =
          slice_there file.bytes slot 13 e.key (to_le 8 e.offset ++ (e.flags ∷ behind)) from_slot
            parts.1.0.key.sized

      from_offset : drop (slot + 13) file.bytes ≡ to_le 8 e.offset ++ (e.flags ∷ behind)
      from_offset =
          drop_behind file.bytes slot 13 e.key (to_le 8 e.offset ++ (e.flags ∷ behind)) from_slot
            parts.1.0.key.sized

      from_flags : drop (slot + 13 + 8) file.bytes ≡ e.flags ∷ behind
      from_flags =
          drop_behind file.bytes (slot + 13) 8 (to_le 8 e.offset) (e.flags ∷ behind) from_offset
            (length-to_le 8 e.offset)

      pub peek_key : peek slot 13 file ≡ (ok e.key, file)
      peek_key =
          peek-slice file mapped slot 13 (omega (arith, slot_fits))
          ∙ ap (λ t. (ok t, file)) key_bytes

      pub read_offset_there : read_leaf_offset slot file ≡ (ok e.offset, file)
      unfolding read_leaf_offset
      read_offset_there =
          read_u64-field file mapped (slot + 13) e.offset (omega (arith, slot_fits))
            (slice_there file.bytes (slot + 13) 8 (to_le 8 e.offset) (e.flags ∷ behind) from_offset
              (length-to_le 8 e.offset))
            parts.1.0.offset

      pub read_flags_there : read_leaf_flags slot file ≡ (ok e.flags, file)
      unfolding read_leaf_flags
      read_flags_there = peek_u8-field (slot + 21) e.flags (
          slice_there file.bytes (slot + 21) 1 (e.flags ∷ []) behind
            (ap (λ (k : ℕ). drop k file.bytes) (omega arith) ∙ from_flags) refl)
