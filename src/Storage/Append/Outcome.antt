-- ===== src/Storage/Append/Outcome.antt =====
-- All of `bson_storage_append`: the room is made, then the record is written.
use bsondb.Common.{
  ℕ, ◌+◌, ◌%◌, ◌^◌, ◌≤◌, ◌<◌, ◌≡◌, refl, sym, subst, ◌⊎◌, inl, inr, List, [], ◌∷◌, ◌++◌, arith,
  length,
}
use bsondb.Bson.Result.{ok, err, io}
use bsondb.Bson.Wire.{size_mod}
use bsondb.Mmap.{MmapFile, Os, Outcome}
use bsondb.Mmap.Exec.{continue}
use bsondb.Storage.Image.{Rec, IsDoc, Represents}
use bsondb.Storage.Append.{
  live_record, end_of, storage_data_end-Represents, appended, write_record-Represents,
  appended-Represents,
}
use bsondb.Storage.Growth.{Room, Stuck, make_room-Represents}
use bsondb.Storage.Records.{storage_append, make_room, write_record}

-- The record is behind the others, or the file has no room and the system refuses to make it longer.
abbrev pub Appended :
    (os : Os) (file : MmapFile) (recs : List Rec)
    → Represents file recs
    → List ℕ
    → Outcome ℕ
    → Type 0
Appended os file recs h doc r =
    ((file' : MmapFile) × (r ≡ (ok (end_of recs), file'))
      × Represents file' (recs ++ live_record doc ∷ []))
    ⊎ ((after : MmapFile) × (r ≡ (err io, after)) × Stuck h os (end_of recs + 1 + length doc))

module _ (os : Os) (file : MmapFile) (recs : List Rec) (h : Represents file recs) (doc : List ℕ)
    (doc_ok : IsDoc doc) (small : end_of recs + 1 + length doc < 2 ^ 60) where
  needed : ℕ
  needed = (end_of recs + 1 + length doc) % size_mod

  write_from : Outcome (Unit {0}) → Outcome ℕ
  write_from r = continue r.0 (λ _. write_record (end_of recs) doc) r.1

  append_step : storage_append os doc file ≡ write_from (make_room os needed file)
  unfolding storage_append write_from needed
  append_step = rw (storage_data_end-Represents h)

  written :
      (r : Outcome (Unit {0})) → Room h os needed r → Appended os file recs h doc (write_from r)
  unfolding write_from needed
  written r (inl (file', e, h', room)) =
      let fits : end_of recs + 1 + length doc ≤ length file'.bytes = omega (arith, room, small) in
      subst (λ r. Appended os file recs h doc (write_from r)) (sym e)
        (inl (
          appended h' doc,
          write_record-Represents h' doc fits,
          appended-Represents h' doc fits doc_ok,
        ))
  written r (inr (after, e, stuck)) =
      subst (λ r. Appended os file recs h doc (write_from r)) (sym e)
        (inr (after, refl, subst (Stuck h os) (omega (arith, small)) stuck))

  -- A well-formed document goes behind the records of the file, unless a system call fails.
  pub storage_append_cases : Appended os file recs h doc (storage_append os doc file)
  unfolding needed
  storage_append_cases =
      subst (Appended os file recs h doc) (sym append_step) (
        written (make_room os needed file)
          (make_room-Represents h os needed (omega (arith, small))))
