-- ===== src/Lib.antt =====
-- A verification of the C engine of bsondb, an embedded document database: a BSON codec, collection
-- data files that are mapped into memory, and the handle through which Python calls them.
--
-- A document is BSON bytes. bson_engine.c reads it through a bounds-checked cursor (`bson_reader_t`),
-- walks its elements with an iterator (`bson_iter_t`), checks it whole (`bson_validate_document`) and
-- builds it with a growing buffer (`bson_writer_t`). storage.c keeps a collection in one file: a header
-- of 64 bytes with counters, then records, each a status byte and a document. Records are appended, and
-- deleted by a change of the status byte; after a crash the counters are found again by a scan
-- (`bson_storage_recover`), which validates each document. scanner.c walks the live records. All of it
-- acts on a file that platform_mmap.c maps whole into memory. btree.c keeps an index on a field in a file
-- of its own, a B+Tree of pages of 4096 bytes whose leaves hold keys of 13 bytes with record offsets and
-- are linked from left to right. The CollectionHandle and the IndexHandle of _storage_core.c give these
-- operations to Python and turn status codes into exceptions. _bson_core.c encodes Python objects with
-- the writer, and decodes what the validator accepts with the iterator.
--
-- Which file models what:
--   Common           Boolean tests, lists, little-endian words, signed integers, the bit operations,
--                    `patch` (a write into the middle of a list)
--   Bson.Result      bson_status_t, and the outcome of a call: a status and outputs, a fault (an access
--                    outside a buffer), or a loop of the model that ran out of fuel
--   Bson.Wire        include/custom_bson/wire_spec.h: type bytes, limits, endian conversions
--   Bson.Reader      src/c_engine/bson_engine.c: bson_reader_*
--   Bson.Utf8        bson_utf8_validate; Scalars has the encoding it is compared with
--   Bson.Iter        bson_iter_init_*, bson_iter_next; Values has bson_iter_value_*
--   Bson.Validate    bson_validate_document
--   Bson.Writer      bson_writer_*
--   Mmap             src/c_engine/platform_mmap.c, the POSIX half; Exec has reads and writes through the
--                    mapping, in order, each of which may fail
--   Storage.Header   src/c_engine/storage.c: bson_storage_open_header, _mark_clean, _recover (its scan
--                    in Storage.Scan), the counters
--   Storage.Records  bson_storage_append, _tombstone, _read
--   Storage.Scanner  src/c_engine/scanner.c
--   Storage.Handle   src/python_bindings/_storage_core.c: CollectionHandle and open_collection
--                    (Enumeration: the sequential scan of python/bsondb/collection.py over such a handle,
--                    with `matches` of python/bsondb/query.py as a parameter)
--   Storage.Image    the abstract file: a list of records, and when a mapped file stands for it
--   Btree.Key        src/c_engine/btree.c: bson_btree_key_cmp; Key.Rank has the numbers it is compared with
--   Btree.Layout     include/custom_bson/btree.h and the accessors of pages; Pages has allocate_page
--   Btree.Offsets    bson_btree_offset_list_t
--   Btree.Search     descend_to_leaf, leftmost_leaf, key_has_live_entry, bson_btree_lookup
--   Btree.Range      bson_btree_range, bson_btree_delete
--   Btree.Insert     insert_recursive, bson_btree_insert
--   Btree.Lifecycle  bson_btree_create, _open, _flush, _close; Lifecycle.Written has the writes of a creation
--                    as a list
--   Btree.Handle     src/python_bindings/_storage_core.c: IndexHandle and the functions that open it
--   Codec            src/python_bindings/_bson_core.c: Calendar has the datetimes, Value the Python objects
--                    as data and the exceptions, Encode `encode`, Decode `decode`
--   Btree.Header     what the header of an index file holds
--   Btree.Tree       the abstract index: a tree of pages, and when a file holds it (with Btree.Leaf for
--                    a leaf page, Btree.Internal for an internal one, Btree.Index for the whole file)
-- The other files under these hold proofs. Functions keep the names of the C functions, without the
-- `bson_` prefix (and without `reader_` or `iter_` in the modules of that name).
--
-- A buffer is the list of its bytes and a pointer into it is an offset. A size_t is a natural number,
-- reduced modulo 2 ^ 64 where an addition or subtraction of the code can leave the range. A mapping is
-- shared and covers the whole file, so the file and the mapping are one list of bytes. System calls
-- (open, ftruncate, mmap, msync, malloc) are fields of a record, each may fail, and what is assumed of
-- them is that an ftruncate that succeeds cuts the file or fills it up with zeros.
--
-- Loops run on fuel: bson_iter_next in the validator as many rounds as the document has bytes, since
-- every element takes two bytes at least; the scans one round for each byte of the data, since a
-- record takes six; the doubling of a capacity 65 rounds, since a size_t has 64 bits (from a capacity
-- of 64 bytes up; proved for the append); a walk over pages as many rounds as the file has pages and
-- one more (proved enough for lookup and range on an index that is a tree); `decode` two rounds more
-- than the bytes (proved enough); the scan of a collection one round more than the records (proved
-- enough). The validator's recursion is bounded by the C code's own depth.
--
-- Not modelled: error messages; the Windows half of platform_mmap.c, which is the same protocol over
-- other calls; in _bson_core.c Python objects that contain themselves, failing allocations of the
-- interpreter, the floating-point product that turns a UTC offset into milliseconds, and the module's
-- initialisation; concurrent writers of one file; of the Python package all but the loop of a scan.
pub mod Common
pub mod Bson
pub mod Mmap
pub mod Storage
pub mod Btree
pub mod Codec
