-- ===== src/Storage/Resize.antt =====
-- `bson_mmap_resize` to a larger size, on a file that stands for records: they are the same.
use bsondb.Common.{
  ℕ, zero, suc, ◌+◌, ◌-◌, ◌^◌, ◌≤◌, ◌<◌, ◌≡◌, refl, sym, ap, subst, ◌∙◌, ◌⊎◌, inl, inr, List, [],
  ◌∷◌, ◌++◌, true, false, Option, none, some, arith, ◌==◌, if◌then◌else◌, Bool-cases, length, take,
  drop, slice, replicate, append_assoc, length-append, length-drop, length-replicate,
}
use bsondb.Bson.Result.{ok, err, io, read_only_violation}
use bsondb.Mmap.{
  Outcome, MmapFile, is_read_write, Os, mmap_size, mmap_resize, map_current_fd, resized,
}
use bsondb.Storage.Image.{Rec, image, Represents}

drop-append_le :
    {A : Type 0} (n : ℕ) (xs ys : List A) → n ≤ length xs → drop n (xs ++ ys) ≡ drop n xs ++ ys
drop-append_le zero xs ys h = refl
drop-append_le (suc n) [] ys h = absurd (omega (arith, h))
drop-append_le (suc n) (x ∷ xs) ys h = drop-append_le n xs ys (omega (arith, h))

pub take-append_le :
    {A : Type 0} (n : ℕ) (xs ys : List A) → n ≤ length xs → take n (xs ++ ys) ≡ take n xs
take-append_le zero xs ys h = refl
take-append_le (suc n) [] ys h = absurd (omega (arith, h))
take-append_le (suc n) (x ∷ xs) ys h = ap (λ t. x ∷ t) (take-append_le n xs ys (omega (arith, h)))

take_all : {A : Type 0} (n : ℕ) (xs : List A) → length xs ≤ n → take n xs ≡ xs
take_all zero [] h = refl
take_all (suc n) [] h = refl
take_all zero (x ∷ xs) h = absurd (omega (arith, h))
take_all (suc n) (x ∷ xs) h = ap (λ t. x ∷ t) (take_all n xs (omega (arith, h)))

slice-append : (xs ys : List ℕ) (i n : ℕ) → i + n ≤ length xs → slice (xs ++ ys) i n ≡ slice xs i n
slice-append xs ys i n h =
    ap (λ t. take n t) (drop-append_le i xs ys (omega arith))
    ∙ take-append_le n (drop i xs) ys (omega (arith, length-drop i xs))

abbrev pub longer : MmapFile → List ℕ → MmapFile
longer file zeros = record file { bytes = file.bytes ++ zeros; mapped = true }

resized-longer :
    (bytes : List ℕ) (n : ℕ)
    → length bytes ≤ n
    → resized bytes n ≡ bytes ++ replicate (n - length bytes) 0
resized-longer bytes n more = ap (λ t. t ++ replicate (n - length bytes) 0) (take_all n bytes more)

module _ {file : MmapFile} {recs : List Rec} (h : Represents file recs) where
  longer-Represents :
      (zeros : List ℕ)
      → length file.bytes + length zeros < 2 ^ 62
      → Represents (longer file zeros) recs
  longer-Represents zeros small = record {
    mapped = refl;
    writable = h.writable;
    counters = record {
      data_end_field =
          slice-append file.bytes zeros 16 8 (omega (arith, h.header)) ∙ h.counters.data_end_field;
      live_field =
          slice-append file.bytes zeros 24 8 (omega (arith, h.header)) ∙ h.counters.live_field;
      total_field =
          slice-append file.bytes zeros 32 8 (omega (arith, h.header)) ∙ h.counters.total_field;
    };
    slack = h.slack ++ zeros;
    body =
        drop-append_le 64 file.bytes zeros h.header
        ∙ ap (λ t. t ++ zeros) h.body
        ∙ append_assoc (image recs) h.slack zeros;
    header = omega (arith, length-append file.bytes zeros, h.header);
    valid = h.valid;
    small = omega (arith, length-append file.bytes zeros, small);
  }

  pub size-Represents : mmap_size file ≡ length file.bytes
  unfolding mmap_size
  size-Represents = ap (λ b. if b then length file.bytes else 0) h.mapped

  module _ (os : Os) where
    -- The system does not make the file that long, or does not map it.
    abbrev pub Refuses : ℕ → Type 0
    Refuses n = (os.ftruncate file.bytes n ≡ none) ⊎ (os.mmap n ≡ false)

  -- `bson_mmap_resize` to a larger size.
  abbrev pub Resized : Os → ℕ → Outcome (Unit {0}) → Type 0
  Resized os n r =
      ((zeros : List ℕ) × (r ≡ (ok tt, longer file zeros))
        × Represents (longer file zeros) recs
        × (length file.bytes + length zeros ≡ n))
      ⊎ ((after : MmapFile) × (r ≡ (err io, after)) × Refuses os n)

  module _ (os : Os) (n : ℕ) (more : length file.bytes < n) (small : n < 2 ^ 62) where
    zeros : List ℕ
    zeros = replicate (n - length file.bytes) 0

    remap : List ℕ → Outcome (Unit {0})
    remap bytes = map_current_fd os (record file { bytes = bytes; mapped = false }) n

    truncated : Option (List ℕ) → Outcome (Unit {0})
    truncated none = (err io, file)
    truncated (some bytes) = remap bytes

    abbrev cases : Option (List ℕ) → Outcome (Unit {0})
    cases r = elim r [
      | none ↦ (err io, file)
      | some bytes ↦ map_current_fd os (record file { bytes = bytes; mapped = false }) n
    ]

    cases-truncated : (r : Option (List ℕ)) → cases r ≡ truncated r
    unfolding truncated remap
    cases-truncated none = refl
    cases-truncated (some bytes) = refl

    n_eq : (k : ℕ) → k < n → (n == k) ≡ false
    n_eq k less = ground arith

    longer_bytes :
        (bytes : List ℕ) → os.ftruncate file.bytes n ≡ some bytes → bytes ≡ file.bytes ++ zeros
    unfolding zeros
    longer_bytes bytes e =
        os.ftruncate-resized file.bytes n bytes e
        ∙ resized-longer file.bytes n (omega (arith, more))

    remap_lem :
        (bytes : List ℕ)
        → remap bytes ≡ (
            if os.mmap n
            then (ok tt, record file { bytes = bytes; mapped = true })
            else (err io, record file { bytes = bytes; mapped = false }))
    unfolding remap map_current_fd
    remap_lem bytes =
        ap
          (λ b.
            if b
            then (ok tt, record file { bytes = bytes; mapped = false })
            else (if os.mmap n
                then (ok tt, record file { bytes = bytes; mapped = true })
                else (err io, record file { bytes = bytes; mapped = false })))
          (n_eq 0 (omega (arith, more)))

    zeros-Represents : Represents (longer file zeros) recs
    unfolding zeros
    zeros-Represents =
        longer-Represents (replicate (n - length file.bytes) 0)
          (omega (arith, length-replicate {A = ℕ} (n - length file.bytes) 0, more, small))

    length-zeros : length file.bytes + length zeros ≡ n
    unfolding zeros
    length-zeros = omega (arith, length-replicate {A = ℕ} (n - length file.bytes) 0, more)

    remap-Resized : Resized os n (remap (file.bytes ++ zeros))
    remap-Resized = elim (Bool-cases (os.mmap n)) [
      | inl m ↦ inl (
        zeros,
        remap_lem (file.bytes ++ zeros)
            ∙ ap
                (λ b.
                  if b
                  then (ok tt, longer file zeros)
                  else (err io, record file { bytes = file.bytes ++ zeros; mapped = false }))
                m,
        zeros-Represents,
        length-zeros,
      )
      | inr m ↦ inr (
        record file { bytes = file.bytes ++ zeros; mapped = false },
        remap_lem (file.bytes ++ zeros)
            ∙ ap
                (λ b.
                  if b
                  then (ok tt, longer file zeros)
                  else (err io, record file { bytes = file.bytes ++ zeros; mapped = false }))
                m,
        inr m,
      )
    ]

    truncated-Resized :
        (r : Option (List ℕ)) → os.ftruncate file.bytes n ≡ r → Resized os n (truncated r)
    unfolding truncated
    truncated-Resized none e = inr (file, refl, inl e)
    truncated-Resized (some bytes) e =
        subst (λ b. Resized os n (remap b)) (sym (longer_bytes bytes e)) remap-Resized

    resize-truncated : mmap_resize os file n ≡ truncated (os.ftruncate file.bytes n)
    unfolding mmap_resize
    resize-truncated =
        ap
          (λ b.
            if b
            then (if n == mmap_size file then (ok tt, file) else cases (os.ftruncate file.bytes n))
            else (err read_only_violation, file))
          (ap is_read_write h.writable)
        ∙ ap (λ b. if b then (ok tt, file) else cases (os.ftruncate file.bytes n))
            (n_eq (mmap_size file) (omega (arith, size-Represents, more)))
        ∙ cases-truncated (os.ftruncate file.bytes n)

    pub resize-Represents : Resized os n (mmap_resize os file n)
    resize-Represents =
        subst (Resized os n) (sym resize-truncated)
          (truncated-Resized (os.ftruncate file.bytes n) refl)
