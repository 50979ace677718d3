-- ===== src/Btree/Lifecycle/Written.antt =====
-- The bytes that the writes of `bson_btree_create` leave.
use bsondb.Common.{
  ℕ, ◌+◌, ◌≤◌, ◌<◌, ◌≡◌, ◌⊎◌, ◌∙◌, List, [], ◌∷◌, Bool, All, length, length-replicate, replicate,
  slice, to_le, arith,
}
use bsondb.Mmap.Writes.{Write, written, Fits, onto, slice-written, slice-onto}
use bsondb.Btree.Layout.{btree_magic, btree_version, btree_header_len, page_size}
use bsondb.Btree.Lifecycle.{flags_of}

-- The writes of the header, of a new page and of an empty root leaf, in order.
unfoldable pub header_writes : ℕ → List ℕ → ℕ → ℕ → List Write
header_writes size path tag flags =
    (0, replicate size 0)
    ∷ (0, btree_magic)
    ∷ (4, to_le 2 btree_version)
    ∷ (6, to_le 2 flags)
    ∷ (8, to_le 4 btree_header_len)
    ∷ (12, to_le 4 page_size)
    ∷ (16, to_le 8 0)
    ∷ (24, to_le 8 0)
    ∷ (32, to_le 8 0)
    ∷ (40, tag ∷ [])
    ∷ (41, length path ∷ [])
    ∷ (56, path)
    ∷ []

unfoldable pub page_writes : List Write
page_writes = (4096, replicate 4096 0) ∷ (24, to_le 8 1) ∷ []

unfoldable pub root_writes : List Write
root_writes = (4096, 1 ∷ []) ∷ (4098, to_le 2 0) ∷ (4104, to_le 8 0) ∷ (16, to_le 8 1) ∷ []

-- What is written after each of the three, the last first.
unfoldable pub in_header : ℕ → List ℕ → ℕ → Bool → Bool → List Write
in_header size path tag unique descending =
    onto (header_writes size path tag (flags_of unique descending)) []

unfoldable pub with_page : ℕ → List ℕ → ℕ → Bool → Bool → List Write
with_page size path tag unique descending =
    onto page_writes (in_header size path tag unique descending)

unfoldable pub all_writes : ℕ → List ℕ → ℕ → Bool → Bool → List Write
all_writes size path tag unique descending =
    onto root_writes (with_page size path tag unique descending)

module _ (bytes path : List ℕ) (tag : ℕ) (unique descending : Bool) (short : length path < 200)
    (large : 8192 ≤ length bytes) where
  abbrev header : List Write
  header = in_header (length bytes) path tag unique descending

  abbrev paged : List Write
  paged = with_page (length bytes) path tag unique descending

  abbrev all : List Write
  all = all_writes (length bytes) path tag unique descending

  pub header-Fits : All (Fits (length bytes)) header
  unfolding to_le header_writes in_header
  header-Fits = omega (arith, short, large, length-replicate {A = ℕ} (length bytes) 0)

  pub page-Fits : All (Fits (length bytes)) paged
  unfolding to_le page_writes with_page
  page-Fits =
      (omega (arith, large), (omega (arith, large, length-replicate {A = ℕ} 4096 0), header-Fits))

  pub all-Fits : All (Fits (length bytes)) all
  unfolding to_le root_writes all_writes
  all-Fits = (
    omega (arith, large),
    (omega (arith, large), (omega (arith, large), (omega (arith, large), page-Fits))),
  )

  pub counted_header : slice (written header bytes) 24 8 ≡ to_le 8 0
  unfolding to_le header_writes in_header
  counted_header =
      slice-written ((56, path) ∷ (41, length path ∷ []) ∷ (40, tag ∷ []) ∷ (32, to_le 8 0) ∷ []) 24
        (to_le 8 0)
        ((16, to_le 8 0)
          ∷ (12, to_le 4 page_size)
          ∷ (8, to_le 4 btree_header_len)
          ∷ (6, to_le 2 (flags_of unique descending))
          ∷ (4, to_le 2 btree_version)
          ∷ (0, btree_magic)
          ∷ (0, replicate (length bytes) 0)
          ∷ [])
        bytes (omega (arith, short)) header-Fits

  magic_header : slice (written header bytes) 0 4 ≡ btree_magic
  unfolding to_le header_writes in_header
  magic_header =
      slice-written
        ((56, path)
          ∷ (41, length path ∷ [])
          ∷ (40, tag ∷ [])
          ∷ (32, to_le 8 0)
          ∷ (24, to_le 8 0)
          ∷ (16, to_le 8 0)
          ∷ (12, to_le 4 page_size)
          ∷ (8, to_le 4 btree_header_len)
          ∷ (6, to_le 2 (flags_of unique descending))
          ∷ (4, to_le 2 btree_version)
          ∷ [])
        0 (btree_magic) ((0, replicate (length bytes) 0) ∷ []) bytes (omega (arith, short))
        header-Fits

  version_header : slice (written header bytes) 4 2 ≡ to_le 2 btree_version
  unfolding to_le header_writes in_header
  version_header =
      slice-written
        ((56, path)
          ∷ (41, length path ∷ [])
          ∷ (40, tag ∷ [])
          ∷ (32, to_le 8 0)
          ∷ (24, to_le 8 0)
          ∷ (16, to_le 8 0)
          ∷ (12, to_le 4 page_size)
          ∷ (8, to_le 4 btree_header_len)
          ∷ (6, to_le 2 (flags_of unique descending))
          ∷ [])
        4 (to_le 2 btree_version) ((0, btree_magic) ∷ (0, replicate (length bytes) 0) ∷ []) bytes
        (omega (arith, short)) header-Fits

  flags_header : slice (written header bytes) 6 2 ≡ to_le 2 (flags_of unique descending)
  unfolding to_le header_writes in_header
  flags_header =
      slice-written
        ((56, path)
          ∷ (41, length path ∷ [])
          ∷ (40, tag ∷ [])
          ∷ (32, to_le 8 0)
          ∷ (24, to_le 8 0)
          ∷ (16, to_le 8 0)
          ∷ (12, to_le 4 page_size)
          ∷ (8, to_le 4 btree_header_len)
          ∷ [])
        6 (to_le 2 (flags_of unique descending))
        ((4, to_le 2 btree_version) ∷ (0, btree_magic) ∷ (0, replicate (length bytes) 0) ∷ []) bytes
        (omega (arith, short)) header-Fits

  path_len_header : slice (written header bytes) 41 1 ≡ length path ∷ []
  unfolding to_le header_writes in_header
  path_len_header =
      slice-written ((56, path) ∷ []) 41 (length path ∷ [])
        ((40, tag ∷ [])
          ∷ (32, to_le 8 0)
          ∷ (24, to_le 8 0)
          ∷ (16, to_le 8 0)
          ∷ (12, to_le 4 page_size)
          ∷ (8, to_le 4 btree_header_len)
          ∷ (6, to_le 2 (flags_of unique descending))
          ∷ (4, to_le 2 btree_version)
          ∷ (0, btree_magic)
          ∷ (0, replicate (length bytes) 0)
          ∷ [])
        bytes (omega (arith, short)) header-Fits

  path_header : slice (written header bytes) 56 (length path) ≡ path
  unfolding to_le header_writes in_header
  path_header =
      slice-written ([]) 56 (path)
        ((41, length path ∷ [])
          ∷ (40, tag ∷ [])
          ∷ (32, to_le 8 0)
          ∷ (24, to_le 8 0)
          ∷ (16, to_le 8 0)
          ∷ (12, to_le 4 page_size)
          ∷ (8, to_le 4 btree_header_len)
          ∷ (6, to_le 2 (flags_of unique descending))
          ∷ (4, to_le 2 btree_version)
          ∷ (0, btree_magic)
          ∷ (0, replicate (length bytes) 0)
          ∷ [])
        bytes (omega (arith, short)) header-Fits

  -- What no write of the root, or of the page and the root, touches.
  kept_root :
      (i n : ℕ)
      → (i + n ≤ 16) ⊎ ((24 ≤ i) × (i + n ≤ 4096))
      → slice (written all bytes) i n ≡ slice (written paged bytes) i n
  unfolding to_le root_writes all_writes
  kept_root i n h = slice-onto i n root_writes paged bytes (ground (arith, h)) all-Fits

  kept :
      (i n : ℕ)
      → (i + n ≤ 16) ⊎ ((32 ≤ i) × (i + n ≤ 4096))
      → slice (written all bytes) i n ≡ slice (written header bytes) i n
  unfolding to_le page_writes with_page
  kept i n h =
      kept_root i n (ground (arith, h))
      ∙ slice-onto i n page_writes header bytes (ground (arith, h)) page-Fits

  pub magic_there : slice (written all bytes) 0 4 ≡ btree_magic
  magic_there = kept 0 4 (omega arith) ∙ magic_header

  pub version_there : slice (written all bytes) 4 2 ≡ to_le 2 btree_version
  version_there = kept 4 2 (omega arith) ∙ version_header

  pub flags_there : slice (written all bytes) 6 2 ≡ to_le 2 (flags_of unique descending)
  flags_there = kept 6 2 (omega arith) ∙ flags_header

  pub path_len_there : slice (written all bytes) 41 1 ≡ length path ∷ []
  path_len_there = kept 41 1 (omega arith) ∙ path_len_header

  pub path_there : slice (written all bytes) 56 (length path) ≡ path
  path_there = kept 56 (length path) (omega (arith, short)) ∙ path_header

  pub type_there : slice (written all bytes) 4096 1 ≡ 1 ∷ []
  unfolding to_le root_writes all_writes
  type_there =
      slice-written ((16, to_le 8 1) ∷ (4104, to_le 8 0) ∷ (4098, to_le 2 0) ∷ []) 4096 (1 ∷ [])
        (onto ([]) paged) bytes (omega arith) all-Fits

  pub entries_there : slice (written all bytes) 4098 2 ≡ to_le 2 0
  unfolding to_le root_writes all_writes
  entries_there =
      slice-written ((16, to_le 8 1) ∷ (4104, to_le 8 0) ∷ []) 4098 (to_le 2 0)
        (onto ((4096, 1 ∷ []) ∷ []) paged) bytes (omega arith) all-Fits

  pub link_there : slice (written all bytes) 4104 8 ≡ to_le 8 0
  unfolding to_le root_writes all_writes
  link_there =
      slice-written ((16, to_le 8 1) ∷ []) 4104 (to_le 8 0)
        (onto ((4096, 1 ∷ []) ∷ (4098, to_le 2 0) ∷ []) paged) bytes (omega arith) all-Fits

  pub root_there : slice (written all bytes) 16 8 ≡ to_le 8 1
  unfolding to_le root_writes all_writes
  root_there =
      slice-written ([]) 16 (to_le 8 1)
        (onto ((4096, 1 ∷ []) ∷ (4098, to_le 2 0) ∷ (4104, to_le 8 0) ∷ []) paged) bytes
        (omega arith) all-Fits

  pub count_there : slice (written all bytes) 24 8 ≡ to_le 8 1
  unfolding to_le page_writes with_page
  count_there =
      kept_root 24 8 (omega arith)
      ∙ slice-written [] 24 (to_le 8 1) ((4096, replicate 4096 0) ∷ header) bytes tt page-Fits
