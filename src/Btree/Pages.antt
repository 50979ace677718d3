-- ===== src/Btree/Pages.antt =====
-- New pages: `ensure_capacity_for_page` and `allocate_page`.
use bsondb.Common.{ℕ, ◌+◌, ◌*◌, ◌%◌, leb, ◌==◌, if◌then◌else◌, replicate}
use bsondb.Bson.Result.{ok}
use bsondb.Bson.Wire.{size_mod}
use bsondb.Mmap.{Os, mmap_size}
use bsondb.Mmap.Exec.{Exec, pure, ◌>>=◌, ◌>>◌, poke, read_u64, write_u64}
use bsondb.Storage.Header.{resize, lift}
use bsondb.Storage.Records.{double_until}
use bsondb.Btree.Layout.{page_size, page_off, off_page_count}

module _ (os : Os) where
  -- The doubling is that of `bson_storage_append`, with no rounding: a capacity is whole pages.
  unfoldable pub ensure_capacity_for_page : ℕ → Exec (Unit {0})
  ensure_capacity_for_page page_no file =
      let needed = (page_no + 1) * page_size % size_mod in
      if leb needed (mmap_size file)
      then (ok tt, file)
      else (do
        new_cap ←
            lift
              (double_until 65 (if mmap_size file == 0 then page_size else mmap_size file) needed)
        resize os new_cap)
          file

  unfoldable pub allocate_page : Exec ℕ
  allocate_page = do
    page_count ← read_u64 off_page_count
    ensure_capacity_for_page ((page_count + 1) % size_mod)
    poke (page_off ((page_count + 1) % size_mod)) (replicate page_size 0)
    write_u64 off_page_count ((page_count + 1) % size_mod)
    pure ((page_count + 1) % size_mod)
