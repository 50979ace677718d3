-- ===== src/Storage/Walk.antt =====
-- `bson_scanner_next` on a file that stands for records.
use bsondb.Common.{
  ℕ, zero, suc, ◌+◌, ◌-◌, ◌%◌, ◌<◌, ◌≡◌, refl, sym, ap, subst, ◌∙◌, List, [], ◌∷◌, ◌++◌, Bool, true,
  false, Option, none, some, arith, ltb, ◌==◌, if◌then◌else◌, length, append_assoc, append-nil,
  length-append, le→ltb, lt→ltb,
}
use bsondb.Bson.Result.{Result, ◌>>=◌, ok}
use bsondb.Bson.Wire.{size_mod}
use bsondb.Mmap.{MmapFile}
use bsondb.Storage.Format.{record_live}
use bsondb.Storage.Image.{Rec, image, Represents}
use bsondb.Storage.Append.{image-append, end_of}
use bsondb.Common.Regions.{byte_at-drop}
use bsondb.Storage.Lookup.{before_end, from_record, length_there, is_doc, bounded}
use bsondb.Storage.Records.{Entry}
use bsondb.Storage.Handle.{next_offset}
use bsondb.Storage.Scanner.{Scanner, record_length, scan_record, scanner_loop}

-- The first live record of `recs`, which begin at the offset `at`.
abbrev pub first_live : ℕ → List Rec → Option ℕ
first_live at [] = none
first_live at (r ∷ recs) =
    if r.status == record_live then some at else first_live (at + 1 + length r.doc) recs

pub end_of-append : (xs : List Rec) (r : Rec) → end_of (xs ++ r ∷ []) ≡ end_of xs + 1 + length r.doc
unfolding end_of
end_of-append xs r =
    omega
      (arith, ap (λ t. length t) (image-append xs r), length-append (image xs) (r.status ∷ r.doc))

module _ (file : MmapFile) where
  abbrev pub scanner_at : ℕ → List Rec → Scanner
  scanner_at at recs = record { base = file.bytes; data_end = end_of recs; pos = at }

  module _ (xs : List Rec) (r : Rec) (ys : List Rec) (h : Represents file (xs ++ r ∷ ys)) where
    abbrev recs : List Rec
    recs = xs ++ r ∷ ys

    abbrev entry : Entry
    entry = record { status = r.status; doc_off = end_of xs + 1; doc_len = length r.doc }

    position : (end_of xs + (1 + length r.doc)) % size_mod ≡ end_of xs + 1 + length r.doc
    position = omega (arith, before_end xs r ys h, bounded xs r ys h)

    scan_record_lem :
        scan_record (scanner_at (end_of xs) recs)
        ≡ ok (entry, scanner_at (end_of xs + 1 + length r.doc) recs)
    unfolding scan_record record_length
    scan_record_lem = rw (
      le→ltb (end_of recs) (end_of xs + 1) (omega (arith, before_end xs r ys h)),
      byte_at-drop (end_of xs) file.bytes,
      from_record xs r ys h,
      length_there xs r ys h,
      le→ltb (length r.doc + 0) 5 (omega (arith, is_doc xs r ys h)),
      position,
      le→ltb (end_of recs) (end_of xs + 1 + length r.doc) (before_end xs r ys h),
      position,
    )

    -- The same, where the scanner's fields are known up to an equation.
    scan_record_at :
        (at : ℕ) (all : List Rec)
        → at ≡ end_of xs
        → all ≡ recs
        → scan_record (scanner_at at all)
          ≡ ok (
            record { status = r.status; doc_off = at + 1; doc_len = length r.doc },
            scanner_at (at + 1 + length r.doc) all,
          )
    scan_record_at at all e e' =
        subst
          (λ (a : ℕ).
            scan_record (scanner_at a all)
            ≡ ok (
              record { status = r.status; doc_off = a + 1; doc_len = length r.doc },
              scanner_at (a + 1 + length r.doc) all,
            ))
          (sym e)
          (subst
            (λ (l : List Rec).
              scan_record (scanner_at (end_of xs) l)
              ≡ ok (entry, scanner_at (end_of xs + 1 + length r.doc) l))
            (sym e') scan_record_lem)

  -- What `bson_scanner_next` finds, by its offset.
  abbrev pub Found : Option ℕ → Result (Option (Entry × Scanner)) → Type 0
  Found offset r = (o : Option (Entry × Scanner)) × (r ≡ ok o) × (next_offset o ≡ offset)

  step :
      (b : Bool) (at : ℕ) (e : Entry) (s : Scanner) (offset : Option ℕ)
      (next : Result (Option (Entry × Scanner)))
      → e.doc_off ≡ at + 1
      → Found offset next
      → Found (if b then some at else offset) (elim b [ true ↦ ok (some (e, s)) | false ↦ next ])
  step true at e s offset next eq found = (some (e, s), refl, ap some (minus_one e.doc_off at eq))
    where
      minus_one : (off at : ℕ) → off ≡ at + 1 → off - 1 ≡ at
      minus_one off at eq = omega (arith, eq)
  step false at e s offset next eq found = found

  round : ℕ → Bool → Result (Entry × Scanner) → Result (Option (Entry × Scanner))
  round fuel false r = ok none
  round fuel true r = r >>= λ (e, s'). elim (e.status == record_live) [
    | true ↦ ok (some (e, s'))
    | false ↦ scanner_loop fuel s'
  ]

  round_lem :
      (fuel : ℕ) (s : Scanner)
      → scanner_loop (suc fuel) s ≡ round fuel (ltb s.pos s.data_end) (scan_record s)
  unfolding scanner_loop round
  round_lem fuel s = opened (ltb s.pos s.data_end)
    where
      opened :
          (b : Bool)
          → elim b [
            | false ↦ ok none
            | true ↦ scan_record s >>= λ (e, s'). elim (e.status == record_live) [
              | true ↦ ok (some (e, s'))
              | false ↦ scanner_loop fuel s'
            ]
          ]
            ≡ round fuel b (scan_record s)
      opened true = refl
      opened false = refl

  pub scanner_loop_lem :
      (ys xs all : List Rec) (at fuel : ℕ)
      → at ≡ end_of xs
      → all ≡ xs ++ ys
      → length ys < fuel
      → Represents file all
      → Found (first_live at ys) (scanner_loop fuel (scanner_at at all))
  unfolding round
  scanner_loop_lem ys xs all at zero e e' enough h = absurd (omega (arith, enough))
  scanner_loop_lem [] xs all at (suc fuel) e e' enough h =
      let done =
        le→ltb at (end_of all) (omega (arith, e, ap end_of e', ap end_of (append-nil xs))) in
      (
        none,
        round_lem fuel (scanner_at at all)
            ∙ ap (λ b. round fuel b (scan_record (scanner_at at all))) done,
        refl,
      )
  scanner_loop_lem (r ∷ ys) xs all at (suc fuel) e e' enough h =
      let h' = subst (Represents file) e' h in
      let more = lt→ltb at (end_of all) (omega (arith, e, ap end_of e', before_end xs r ys h')) in
      let entry : Entry = record { status = r.status; doc_off = at + 1; doc_len = length r.doc } in
      let next = scanner_at (at + 1 + length r.doc) all in
      subst (Found (first_live at (r ∷ ys)))
        (sym (
          round_lem fuel (scanner_at at all)
          ∙ ap (λ b. round fuel b (scan_record (scanner_at at all))) more
          ∙ ap (λ q. round fuel true q) (scan_record_at xs r ys h' at all e e')))
        (step (r.status == record_live) at entry next (first_live (at + 1 + length r.doc) ys)
          (scanner_loop fuel next) refl
          (scanner_loop_lem ys (xs ++ r ∷ []) all (at + 1 + length r.doc) fuel
            (omega (arith, e, end_of-append xs r)) (e' ∙ sym (append_assoc xs (r ∷ []) ys))
            (omega (arith, enough)) h))
