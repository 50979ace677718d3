-- ===== src/Mmap/Writes.antt =====
-- Several writes into a mapped file, one after the other.
use bsondb.Common.{
  ℕ, ◌+◌, ◌≤◌, ◌≡◌, refl, ap, ◌∙◌, ◌⊎◌, inl, inr, List, [], ◌∷◌, ◌++◌, true, All, length, take,
  slice, arith,
}
use bsondb.Common.Patch.{
  patch, length-patch, slice-patch_before, slice-patch_self, drop-patch_after,
}
use bsondb.Bson.Result.{ok}
use bsondb.Mmap.{MmapFile, read_write}
use bsondb.Mmap.Exec.{Exec, poke, ◌>>◌}
use bsondb.Storage.Access.{poke-patch}

-- The offset and the bytes of a write.
abbrev pub Write : Type 0
Write = ℕ × List ℕ

-- The bytes after some writes, the last of which stands first.
abbrev pub written : List Write → List ℕ → List ℕ
written [] bytes = bytes
written ((off, raw) ∷ ws) bytes = patch raw off (written ws bytes)

abbrev pub Fits : ℕ → Write → Type 0
Fits size (off, raw) = off + length raw ≤ size

-- A write that does not touch the `n` bytes at `i`.
abbrev pub IsApart : ℕ → ℕ → Write → Type 0
IsApart i n (off, raw) = (i + n ≤ off) ⊎ (off + length raw ≤ i)

pub length-written :
    (ws : List Write) (bytes : List ℕ)
    → All (Fits (length bytes)) ws
    → length (written ws bytes) ≡ length bytes
length-written [] bytes h = refl
length-written ((off, raw) ∷ ws) bytes (f, fs) =
    let before = length-written ws bytes fs in
    length-patch raw off (written ws bytes) (omega (arith, f, before)) ∙ before

pub slice-patch_apart :
    (i n off : ℕ) (raw bytes : List ℕ)
    → IsApart i n (off, raw)
    → off + length raw ≤ length bytes
    → slice (patch raw off bytes) i n ≡ slice bytes i n
slice-patch_apart i n off raw bytes (inl before) h = slice-patch_before raw off i n bytes before
slice-patch_apart i n off raw bytes (inr after) h =
    ap (λ t. take n t) (drop-patch_after raw off i bytes after h)

-- A field keeps what was written into it where the later writes are apart from it.
pub slice-written :
    (later : List Write) (off : ℕ) (raw : List ℕ) (ws : List Write) (bytes : List ℕ)
    → All (IsApart off (length raw)) later
    → All (Fits (length bytes)) (later ++ (off, raw) ∷ ws)
    → slice (written (later ++ (off, raw) ∷ ws) bytes) off (length raw) ≡ raw
slice-written [] off raw ws bytes a (f, fs) =
    slice-patch_self raw off (written ws bytes) (omega (arith, f, length-written ws bytes fs))
slice-written ((at, more) ∷ later) off raw ws bytes (a, others) (f, fs) =
    slice-patch_apart off (length raw) at more (written (later ++ (off, raw) ∷ ws) bytes) a
      (omega (arith, f, length-written (later ++ (off, raw) ∷ ws) bytes fs))
    ∙ slice-written later off raw ws bytes others fs

module _ (file : MmapFile) (mapped : file.mapped ≡ true) (writable : file.mode ≡ read_write) where
  abbrev pub after : List Write → MmapFile
  after ws = record file { bytes = written ws file.bytes }

  -- One more write.
  pub poke-after :
      (ws : List Write) (off : ℕ) (raw : List ℕ)
      → All (Fits (length file.bytes)) ((off, raw) ∷ ws)
      → poke off raw (after ws) ≡ (ok tt, after ((off, raw) ∷ ws))
  poke-after ws off raw (f, fs) =
      poke-patch (after ws) mapped off raw writable
        (omega (arith, f, length-written ws file.bytes fs))

-- The writes in order.
abbrev pub write_all : List Write → Exec (Unit {0})
write_all [] = λ file. (ok tt, file)
write_all ((off, raw) ∷ []) = poke off raw
write_all ((off, raw) ∷ w ∷ ws) = poke off raw >> write_all (w ∷ ws)

-- All of them, the last first, before some that came earlier.
abbrev pub onto : List Write → List Write → List Write
onto [] ws = ws
onto (v ∷ vs) ws = onto vs (v ∷ ws)

onto-Fits : (size : ℕ) (vs ws : List Write) → All (Fits size) (onto vs ws) → All (Fits size) ws
onto-Fits size [] ws h = h
onto-Fits size (v ∷ vs) ws h = (onto-Fits size vs (v ∷ ws) h).1

module _ (file : MmapFile) (mapped : file.mapped ≡ true) (writable : file.mode ≡ read_write) where
  pub write_all-after :
      (vs ws : List Write)
      → All (Fits (length file.bytes)) (onto vs ws)
      → write_all vs (after file mapped writable ws)
        ≡ (ok tt, after file mapped writable (onto vs ws))
  write_all-after [] ws h = refl
  write_all-after ((off, raw) ∷ []) ws h = poke-after file mapped writable ws off raw h
  write_all-after ((off, raw) ∷ v ∷ vs) ws h =
      rw
        (poke-after file mapped writable ws off raw
          (onto-Fits (length file.bytes) (v ∷ vs) ((off, raw) ∷ ws) h))
        (write_all-after (v ∷ vs) ((off, raw) ∷ ws) h)

-- Writes that are apart from a field leave it as it was.
pub slice-onto :
    (i n : ℕ) (vs ws : List Write) (bytes : List ℕ)
    → All (IsApart i n) vs
    → All (Fits (length bytes)) (onto vs ws)
    → slice (written (onto vs ws) bytes) i n ≡ slice (written ws bytes) i n
slice-onto i n [] ws bytes a h = refl
slice-onto i n ((off, raw) ∷ vs) ws bytes (a, others) h =
    let (f, fs) = onto-Fits (length bytes) vs ((off, raw) ∷ ws) h in
    slice-onto i n vs ((off, raw) ∷ ws) bytes others h
    ∙ slice-patch_apart i n off raw (written ws bytes) a
        (omega (arith, f, length-written ws bytes fs))
