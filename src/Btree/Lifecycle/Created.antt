-- ===== src/Btree/Lifecycle/Created.antt =====
-- The file that `bson_btree_create` leaves: an index with an empty root leaf.
use bsondb.Common.{
  ℕ, ◌^◌, ◌≤◌, ◌<◌, ◌≡◌, refl, ap, ◌∙◌, inl, inr, List, [], ◌∷◌, Bool, true, All, Bool-cases,
  le→leb, if◌then◌else◌, length, replicate, to_le, arith,
}
use bsondb.Bson.Result.{ok}
use bsondb.Mmap.{MmapFile, read_write, Os, mmap_size, mmap_flush}
use bsondb.Mmap.Exec.{write_u16, write_u32, write_u64}
use bsondb.Btree.Lifecycle.Written.{
  header_writes, page_writes, root_writes, in_header, with_page, all_writes, header-Fits, page-Fits,
  all-Fits, magic_there, version_there, flags_there, path_len_there, path_there, type_there,
  entries_there, link_there, root_there, count_there, counted_header,
}
use bsondb.Mmap.Writes.{Write, written, Fits, length-written, after, poke-after, write_all-after}
use bsondb.Storage.Access.{read_u64-field}
use bsondb.Btree.Layout.{page_off}
use bsondb.Btree.Leaf.{HoldsLeaf}
use bsondb.Btree.Pages.{ensure_capacity_for_page, allocate_page}
use bsondb.Btree.Tree.{leaf, leaves, HoldsTree, IsSplit}
use bsondb.Btree.Index.{size, HoldsIndex}
use bsondb.Btree.Header.{HoldsHeader}
use bsondb.Btree.Lifecycle.{flags_of, write_header, write_root, ignore, create_in}

module _ (file : MmapFile) (mapped : file.mapped ≡ true) (writable : file.mode ≡ read_write)
    (path : List ℕ) (tag : ℕ) (unique descending : Bool) (short : length path < 200)
    (large : 8192 ≤ length file.bytes) (small : length file.bytes < 2 ^ 62) where
  abbrev header : List Write
  header = in_header (length file.bytes) path tag unique descending

  abbrev paged : List Write
  paged = with_page (length file.bytes) path tag unique descending

  abbrev all : List Write
  all = all_writes (length file.bytes) path tag unique descending

  abbrev pub made : MmapFile
  made = after file mapped writable all

  length-made : length (written all file.bytes) ≡ length file.bytes
  length-made =
      length-written all file.bytes (all-Fits file.bytes path tag unique descending short large)

  size-after :
      (ws : List Write)
      → All (Fits (length file.bytes)) ws
      → mmap_size (after file mapped writable ws) ≡ length file.bytes
  unfolding mmap_size
  size-after ws h =
      ap (λ b. if b then length (written ws file.bytes) else 0) mapped
      ∙ length-written ws file.bytes h

  header_written :
      write_header path tag unique descending file ≡ (ok tt, after file mapped writable header)
  unfolding write_header write_u16 write_u32 write_u64 header_writes in_header
  header_written = rw (size-after [] tt) (
      write_all-after file mapped writable
        (header_writes (length file.bytes) path tag (flags_of unique descending)) []
        (header-Fits file.bytes path tag unique descending short large))

  roomy :
      (os : Os) (now : MmapFile)
      → mmap_size now ≡ length file.bytes
      → ensure_capacity_for_page os 1 now ≡ (ok tt, now)
  unfolding ensure_capacity_for_page
  roomy os now e = rw (e, le→leb 8192 (length file.bytes) large)

  page_written :
      (os : Os)
      → allocate_page os (after file mapped writable header)
        ≡ (ok 1, after file mapped writable paged)
  unfolding allocate_page write_u64 page_off page_writes with_page
  page_written os = rw (
    read_u64-field (after file mapped writable header) mapped 24 0
        (omega (
          arith,
          large,
          length-written header file.bytes
              (header-Fits file.bytes path tag unique descending short large),
        ))
        (counted_header file.bytes path tag unique descending short large) (omega arith),
    roomy os (after file mapped writable header)
        (size-after header (header-Fits file.bytes path tag unique descending short large)),
    poke-after file mapped writable header 4096 (replicate 4096 0)
        (page-Fits file.bytes path tag unique descending short large).1,
    poke-after file mapped writable ((4096, replicate 4096 0) ∷ header) 24 (to_le 8 1)
        (page-Fits file.bytes path tag unique descending short large),
  )

  root_written : (os : Os) → write_root os (after file mapped writable header) ≡ (ok tt, made)
  unfolding write_root write_u16 write_u64 page_off root_writes all_writes
  root_written os = rw (page_written os) (
      write_all-after file mapped writable root_writes paged
        (all-Fits file.bytes path tag unique descending short large))

  empty_root : HoldsLeaf made.bytes 1 [] 0
  unfolding page_off
  empty_root = record {
    fits = omega (arith, large, length-made);
    type_field = type_there file.bytes path tag unique descending short large;
    count_field = entries_there file.bytes path tag unique descending short large;
    link_field = link_there file.bytes path tag unique descending short large;
    entries_field = refl;
    room = omega arith;
    entries = tt;
    next_small = omega arith;
  }

  pub made-HoldsIndex : HoldsIndex made (leaf 1 [])
  unfolding leaves size HoldsTree IsSplit
  made-HoldsIndex = record {
    mapped = mapped;
    writable = writable;
    root_field = root_there file.bytes path tag unique descending short large;
    count_field = count_there file.bytes path tag unique descending short large;
    capacity = omega (arith, large, length-made);
    small = omega (arith, small, length-made);
    root_small = omega arith;
    pages = (0, empty_root);
    split = tt;
    first = 1;
    linked = (refl, (omega arith, (0, empty_root, refl)));
    entries = tt;
    ascending = tt;
  }

  -- The flush at the end may fail unseen.
  flush_unseen : (os : Os) → ignore (λ now. (mmap_flush os now, now)) made ≡ (ok tt, made)
  unfolding mmap_flush
  flush_unseen os = elim (Bool-cases (os.msync made.bytes)) [
    | inl t ↦ rw (writable, mapped, t)
    | inr f ↦ rw (writable, mapped, f)
  ]

  pub create_in_lem : (os : Os) → create_in os path tag unique descending file ≡ (ok tt, made)
  unfolding create_in
  create_in_lem os = rw (header_written, root_written os, flush_unseen os)

  pub made-HoldsHeader : HoldsHeader made.bytes path unique descending
  made-HoldsHeader = record {
    fits = omega (arith, large, length-made);
    short = short;
    magic_field = magic_there file.bytes path tag unique descending short large;
    version_field = version_there file.bytes path tag unique descending short large;
    flags_field = flags_there file.bytes path tag unique descending short large;
    path_len_field = path_len_there file.bytes path tag unique descending short large;
    path_field = path_there file.bytes path tag unique descending short large;
  }
