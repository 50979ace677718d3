-- ===== src/Mmap/Exec.antt =====
-- Calls that change a mapped file and may fail: what was written before a failure stays written.
use bsondb.Common.{ℕ, List, ◌&&◌, if◌then◌else◌, to_le, from_le}
use bsondb.Bson.Result.{Result, Status, ok, err, fault, stuck, store}
use bsondb.Bson.Reader.{load}
use bsondb.Mmap.{MmapFile, is_read_write, Outcome}

abbrev pub Exec : Type 0 → Type 0
Exec A = MmapFile → Outcome A

abbrev pub pure : {A : Type 0} → A → Exec A
pure a file = (ok a, file)

abbrev pub raise : {A : Type 0} → Status → Exec A
raise s file = (err s, file)

abbrev pub continue : {A B : Type 0} → Result A → (A → Exec B) → Exec B
continue (ok a) f file = f a file
continue (err s) f file = (err s, file)
continue fault f file = (fault, file)
continue stuck f file = (stuck, file)

infixl 5 ◌>>=◌ ◌>>◌
abbrev pub ◌>>=◌ : {A B : Type 0} → Exec A → (A → Exec B) → Exec B
◌>>=◌ m f file = let (r, file') = m file in continue r f file'

abbrev pub ◌>>◌ : {B : Type 0} → Exec (Unit {0}) → Exec B → Exec B
m >> k = m >>= λ _. k

-- `n` bytes at `base + off`; `base` may be NULL.
unfoldable pub peek : ℕ → ℕ → Exec (List ℕ)
peek off n file = (if file.mapped then load file.bytes off n else fault, file)

abbrev stored : Result (List ℕ) → Exec (Unit {0})
stored (ok bytes) file = (ok tt, record file { bytes = bytes })
stored (err s) file = (err s, file)
stored fault file = (fault, file)
stored stuck file = (stuck, file)

-- A write through `mutable_base`: a fault where nothing is mapped, or mapped read-only.
unfoldable pub poke : ℕ → List ℕ → Exec (Unit {0})
poke off bytes file =
    if file.mapped && is_read_write file.mode
    then stored (store file.bytes off bytes) file
    else (fault, file)

-- `read_u16`, `read_u64` and their writers, on a little-endian field at `off`.
unfoldable pub read_u16 : ℕ → Exec ℕ
read_u16 off = do raw ← peek off 2; pure (from_le raw)

unfoldable pub read_u64 : ℕ → Exec ℕ
read_u64 off = do raw ← peek off 8; pure (from_le raw)

unfoldable pub write_u16 : ℕ → ℕ → Exec (Unit {0})
write_u16 off value = poke off (to_le 2 value)

unfoldable pub write_u32 : ℕ → ℕ → Exec (Unit {0})
write_u32 off value = poke off (to_le 4 value)

unfoldable pub write_u64 : ℕ → ℕ → Exec (Unit {0})
write_u64 off value = poke off (to_le 8 value)
