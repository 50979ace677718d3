-- ===== src/Storage/Recovery.antt =====
-- `bson_storage_recover`: the counters after a crash.
pub mod Repair
use bsondb.Common.{
  ℕ, zero, suc, ◌+◌, ◌-◌, ◌%◌, ◌^◌, ◌≤◌, ◌<◌, ◌≡◌, refl, sym, ap, subst, ◌∙◌, ◌⊎◌, inl, inr, List,
  [], ◌∷◌, ◌++◌, Bool, true, false, arith, ltb, ◌==◌, ◌||◌, if◌then◌else◌, length, drop, All,
  append_assoc, append-nil, length-append, length-drop, drop-append, Bool-cases, ltb→lt, le→ltb,
  lt→ltb,
}
use bsondb.Bson.Result.{Result, ok, ◌>>=◌, byte_at}
use bsondb.Bson.Wire.{max_document_size}
use bsondb.Bson.Validate.{validate_document}
use bsondb.Storage.Format.{record_live, record_tombstone}
use bsondb.Storage.Image.{Rec, IsDoc, IsRec, image, live_count}
use bsondb.Storage.Append.{end_of}
use bsondb.Storage.Walk.{end_of-append}
use bsondb.Common.Regions.{drop_add, byte_at-drop}
use bsondb.Storage.Lookup.{from_body, image_split, read_i32_doc}
use bsondb.Storage.Scan.{
  Found, entry, stop, Counts, if_length, if_valid, recover_record, counted, recover_loop,
}

-- The document passes `bson_validate_document` whatever follows it, and is of a size that BSON allows.
abbrev pub IsSound : Rec → Type 0
IsSound r =
    IsRec r
    × (length r.doc ≤ max_document_size)
    × ((rest : List ℕ) → validate_document (r.doc ++ rest) (length r.doc) ≡ ok tt)

abbrev is_status : ℕ → Bool
is_status s = (s == record_live) || (s == record_tombstone)

-- No record begins with these bytes: nothing is left, or no status byte, such as 0, is first.
abbrev pub IsUnused : List ℕ → Type 0
IsUnused [] = Unit
IsUnused (b ∷ bytes) = is_status b ≡ false

module _ (bytes slack : List ℕ) (xs : List Rec) (r : Rec) (ys : List Rec)
    (body : drop 64 bytes ≡ image (xs ++ r ∷ ys) ++ slack) (sound : IsSound r) where
  there : drop (end_of xs) bytes ≡ r.status ∷ (r.doc ++ (image ys ++ slack))
  there = from_body bytes slack xs r ys body

  doc_there : drop (end_of xs + 1) bytes ≡ r.doc ++ (image ys ++ slack)
  doc_there = drop_add (end_of xs) 1 bytes ∙ ap (λ t. drop 1 t) there

  status_ok : ((s : ℕ) → (s ≡ record_live) ⊎ (s ≡ record_tombstone) → is_status s ≡ true)
  status_ok s (inl e) = ground (arith, e)
  status_ok s (inr e) = ground (arith, e)

  fits : end_of xs + 1 + length r.doc ≤ length bytes
  unfolding end_of
  fits = omega (
    arith,
    ap (λ t. length t) there,
    length-drop (end_of xs) bytes,
    length-append r.doc (image ys ++ slack),
  )

  recover_record_lem :
      length bytes < 2 ^ 62 → recover_record bytes (end_of xs) ≡ ok (entry r.status (length r.doc))
  unfolding recover_record if_length if_valid
  recover_record_lem small = rw (
    byte_at-drop (end_of xs) bytes,
    there,
    status_ok r.status sound.0.0,
    le→ltb (length bytes) (end_of xs + 1 + 5) (omega (arith, fits, sound.0.1)),
    read_i32_doc (drop (end_of xs + 1) bytes) r.doc (image ys ++ slack)
        (length bytes - (end_of xs + 1)) doc_there sound.0.1 (omega (arith, fits, sound.0.1))
        (omega (arith, small)),
    le→ltb (length r.doc + 0) 5 (omega (arith, sound.0.1)),
    le→ltb max_document_size (length r.doc) sound.1,
    le→ltb (length bytes) (end_of xs + (1 + length r.doc)) (omega (arith, fits)),
    doc_there,
    sound.2 (image ys ++ slack),
  )

counted_end :
    (c : Counts) (xs : List Rec) (r : Rec)
    → c.end ≡ end_of xs
    → (counted c r.status (length r.doc)).end ≡ end_of (xs ++ r ∷ [])
unfolding counted
counted_end c xs r e = omega (arith, e, end_of-append xs r)

counted_live :
    (c : Counts) (r : Rec) (ys : List Rec)
    → (counted c r.status (length r.doc)).live + live_count ys ≡ c.live + live_count (r ∷ ys)
unfolding counted
counted_live c r ys = ground arith

counted_total :
    (c : Counts) (r : Rec) (ys : List Rec)
    → (counted c r.status (length r.doc)).total + length ys ≡ c.total + length (r ∷ ys)
unfolding counted
counted_total c r ys = omega arith

module _ (bytes slack : List ℕ) (small : length bytes < 2 ^ 62) (unused : IsUnused slack) where
  end_length :
      (all : List Rec)
      → drop 64 bytes ≡ image all ++ slack
      → 64 ≤ length bytes
      → drop (end_of all) bytes ≡ slack
  unfolding end_of
  end_length all body header =
      drop_add 64 (length (image all)) bytes
      ∙ ap (λ t. drop (length (image all)) t) body
      ∙ drop-append (image all) slack

  round : ℕ → Counts → Bool → Result Found → Result Counts
  round rounds c false r = ok c
  round rounds c true r = r >>= elim [
    | stop ↦ ok c
    | entry status doc_len ↦ recover_loop rounds bytes (counted c status doc_len)
  ]

  round_lem :
      (rounds : ℕ) (c : Counts)
      → recover_loop (suc rounds) bytes c
        ≡ round rounds c (ltb c.end (length bytes)) (recover_record bytes c.end)
  unfolding recover_loop round
  round_lem rounds c = opened (ltb c.end (length bytes))
    where
      opened :
          (b : Bool)
          → elim b [
            | false ↦ ok c
            | true ↦ recover_record bytes c.end >>= elim [
              | stop ↦ ok c
              | entry status doc_len ↦ recover_loop rounds bytes (counted c status doc_len)
            ]
          ]
            ≡ round rounds c b (recover_record bytes c.end)
      opened true = refl
      opened false = refl

  unused_stops :
      (at : ℕ) (rest : List ℕ)
      → drop at bytes ≡ rest
      → IsUnused rest
      → at < length bytes
      → recover_record bytes at ≡ ok stop
  unfolding recover_record
  unused_stops at [] e u less =
      absurd (omega (arith, ap (λ t. length t) e, length-drop at bytes, less))
  unused_stops at (b ∷ rest) e u less = rw (byte_at-drop at bytes, e, u)

  stop_here :
      (rounds : ℕ) (c : Counts) (all : List Rec)
      → c.end ≡ end_of all
      → drop 64 bytes ≡ image all ++ slack
      → 64 ≤ length bytes
      → recover_loop (suc rounds) bytes c ≡ ok c
  unfolding round
  stop_here rounds c all e body header =
      round_lem rounds c ∙ elim (Bool-cases (ltb c.end (length bytes))) [
        | inr f ↦ ap (λ b. round rounds c b (recover_record bytes c.end)) f
        | inl t ↦
            ap (λ b. round rounds c b (recover_record bytes c.end)) t
            ∙ ap (λ r. round rounds c true r)
                (unused_stops c.end slack
                  (ap (λ (k : ℕ). drop k bytes) e ∙ end_length all body header) unused
                  (ltb→lt c.end (length bytes) t))
      ]

  pub counts_eq : (a b : Counts) → a.end ≡ b.end → a.live ≡ b.live → a.total ≡ b.total → a ≡ b
  counts_eq a b e l t = λ i. record { end = e i; live = l i; total = t i }

  -- From the record at `c.end` on, the loop counts the rest of the records.
  pub recover_loop_lem :
      (ys xs all : List Rec) (c : Counts) (fuel : ℕ)
      → c.end ≡ end_of xs
      → all ≡ xs ++ ys
      → length ys < fuel
      → All IsSound ys
      → drop 64 bytes ≡ image all ++ slack
      → 64 ≤ length bytes
      → recover_loop fuel bytes c
        ≡ ok (record {
          end = end_of all;
          live = c.live + live_count ys;
          total = c.total + length ys;
        })
  unfolding round
  recover_loop_lem ys xs all c zero e e' enough sound body header = absurd (omega (arith, enough))
  recover_loop_lem [] xs all c (suc fuel) e e' enough sound body header =
      let at_end = e ∙ ap end_of (sym (append-nil xs)) ∙ ap end_of (sym e') in
      stop_here fuel c all at_end body header
      ∙ ap ok (counts_eq c _ at_end (omega arith) (omega arith))
  recover_loop_lem (r ∷ ys) xs all c (suc fuel) e e' enough (sound, rest) body header =
      let body' = body ∙ ap (λ l. image l ++ slack) e' in
      let inside = fits bytes slack xs r ys body' sound in
      let c' = counted c r.status (length r.doc) in
      round_lem fuel c
      ∙ ap (λ b. round fuel c b (recover_record bytes c.end))
          (lt→ltb c.end (length bytes) (omega (arith, e, inside)))
      ∙ ap (λ q. round fuel c true q)
          (ap (λ (k : ℕ). recover_record bytes k) e
            ∙ recover_record_lem bytes slack xs r ys body' sound small)
      ∙ recover_loop_lem ys (xs ++ r ∷ []) all c' fuel (counted_end c xs r e)
          (e' ∙ sym (append_assoc xs (r ∷ []) ys)) (omega (arith, enough)) rest body header
      ∙ ap ok (counts_eq _ _ refl (counted_live c r ys) (counted_total c r ys))
