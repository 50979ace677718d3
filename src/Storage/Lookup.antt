-- ===== src/Storage/Lookup.antt =====
-- `bson_storage_read` at the offset of a record.
use bsondb.Common.{
  ℕ, ◌+◌, ◌-◌, ◌%◌, ◌^◌, ◌≤◌, ◌<◌, ◌≡◌, refl, sym, ap, ◌∙◌, List, [], ◌∷◌, ◌++◌, arith,
  if◌then◌else◌, length, take, drop, slice, All, from_le, append_assoc, length-append, drop-append,
  le→ltb, lt→ltb, lt→leb,
}
use bsondb.Common.Int.{pos}
use bsondb.Bson.Result.{Result, ok, byte_at}
use bsondb.Bson.Wire.{size_mod}
use bsondb.Bson.Reader
use bsondb.Bson.Reader.{Reader, load, remaining}
use bsondb.Bson.Reader.Bounds.{load-slice}
use bsondb.Mmap.{MmapFile}
use bsondb.Storage.Image.{Rec, IsDoc, IsRec, image, Represents}
use bsondb.Common.Regions.{drop_add, byte_at-drop}
use bsondb.Storage.Append.{end_of, length_bytes, storage_data_end-Represents}
use bsondb.Storage.Resize.{take-append_le}
use bsondb.Storage.Records.{read_length, entry_of, read_entry, peek_u8, storage_read}

pub image_split :
    (xs : List Rec) (r : Rec) (ys : List Rec)
    → image (xs ++ r ∷ ys) ≡ image xs ++ (r.status ∷ (r.doc ++ image ys))
image_split [] r ys = refl
image_split (q ∷ xs) r ys =
    ap (λ t. (q.status ∷ q.doc) ++ t) (image_split xs r ys)
    ∙ sym (append_assoc (q.status ∷ q.doc) (image xs) (r.status ∷ (r.doc ++ image ys)))

All_middle :
    (P : Rec → Type 0) (xs : List Rec) (r : Rec) (ys : List Rec) → All P (xs ++ r ∷ ys) → P r
All_middle P [] r ys (p, _) = p
All_middle P (x ∷ xs) r ys (_, ps) = All_middle P xs r ys ps

-- The bytes from a record on.
pub from_body :
    (bytes slack : List ℕ) (xs : List Rec) (r : Rec) (ys : List Rec)
    → drop 64 bytes ≡ image (xs ++ r ∷ ys) ++ slack
    → drop (end_of xs) bytes ≡ r.status ∷ (r.doc ++ (image ys ++ slack))
unfolding end_of
from_body bytes slack xs r ys body =
    drop_add 64 (length (image xs)) bytes
    ∙ ap (λ t. drop (length (image xs)) t)
        (body
          ∙ ap (λ t. t ++ slack) (image_split xs r ys)
          ∙ append_assoc (image xs) (r.status ∷ (r.doc ++ image ys)) slack)
    ∙ drop-append (image xs) ((r.status ∷ (r.doc ++ image ys)) ++ slack)
    ∙ ap (λ t. r.status ∷ t) (append_assoc r.doc (image ys) slack)

-- The length that a document carries.
pub read_i32_doc :
    (buf doc rest : List ℕ) (len : ℕ)
    → buf ≡ doc ++ rest
    → IsDoc doc
    → 4 ≤ len
    → len < 2 ^ 64
    → Reader.read_i32 (Reader.init buf len)
      ≡ ok (pos (length doc), record (Reader.init buf len) { pos = 4 })
unfolding Reader.read_i32 Reader.init Reader.remaining
read_i32_doc buf doc rest len e is_doc room small = rw (
  le→ltb ((len + size_mod - 0) % size_mod) 4 (omega (arith, room, small)),
  load-slice buf 0 4 long,
  field,
  lt→ltb (length doc) (2 ^ 31) is_doc.1,
)
  where
    long : 0 + 4 ≤ length buf
    long = omega (arith, ap (λ t. length t) e, length-append doc rest, is_doc)

    field : from_le (slice buf 0 4) ≡ length doc
    field =
        ap (λ t. from_le (take 4 t)) e
        ∙ ap from_le (take-append_le 4 doc rest (omega (arith, is_doc)))
        ∙ is_doc.2

module _ {file : MmapFile} (xs : List Rec) (r : Rec) (ys : List Rec)
    (h : Represents file (xs ++ r ∷ ys)) where
  pub rest : List ℕ
  rest = image ys ++ h.slack

  pub from_record : drop (end_of xs) file.bytes ≡ r.status ∷ (r.doc ++ rest)
  unfolding rest
  from_record = from_body file.bytes h.slack xs r ys h.body

  pub from_doc : drop (end_of xs + 1) file.bytes ≡ r.doc ++ rest
  from_doc = drop_add (end_of xs) 1 file.bytes ∙ ap (λ t. drop 1 t) from_record

  pub before_end : end_of xs + 1 + length r.doc ≤ end_of (xs ++ r ∷ ys)
  unfolding end_of
  before_end = omega (
    arith,
    ap (λ t. length t) (image_split xs r ys),
    length-append (image xs) (r.status ∷ (r.doc ++ image ys)),
    length-append r.doc (image ys),
  )

  pub is_doc : IsDoc r.doc
  is_doc = (All_middle IsRec xs r ys h.valid).1

  abbrev left : ℕ
  left = (end_of (xs ++ r ∷ ys) + size_mod - (end_of xs + 1)) % size_mod

  pub bounded : end_of (xs ++ r ∷ ys) < 2 ^ 62
  bounded = omega (arith, length_bytes h, h.small)

  pub status_there : peek_u8 (end_of xs) file ≡ (ok r.status, file)
  unfolding peek_u8
  status_there =
      ap (λ b. (b, file))
        (ap (λ b. if b then byte_at file.bytes (end_of xs) else Result.fault) h.mapped
          ∙ byte_at-drop (end_of xs) file.bytes
          ∙ ap (λ t. byte_at t 0) from_record)

  pub length_there :
      read_length file.bytes (end_of xs + 1) (end_of (xs ++ r ∷ ys))
      ≡ ok (
        pos (length r.doc),
        record (Reader.init (drop (end_of xs + 1) file.bytes) left) { pos = 4 },
      )
  unfolding read_length
  length_there =
      read_i32_doc (drop (end_of xs + 1) file.bytes) r.doc rest left from_doc is_doc
        (omega (arith, before_end, is_doc, bounded)) (omega arith)

  pub storage_read_record :
      storage_read (end_of xs) file
      ≡ (ok (record { status = r.status; doc_off = end_of xs + 1; doc_len = length r.doc }), file)
  unfolding storage_read read_entry entry_of
  storage_read_record = rw (
    storage_data_end-Represents h,
    lt→leb (end_of xs) (end_of (xs ++ r ∷ ys)) (omega (arith, before_end)),
    status_there,
    length_there,
    le→ltb (length r.doc + 0) 5 (omega (arith, is_doc)),
  )
