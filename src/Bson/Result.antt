-- ===== src/Bson/Result.antt =====
-- Status codes (`bson_status_t`) and the outcome of a C call. `bson_error_t` carries the code of the
-- returned status and a message; the message is not modelled.
use bsondb.Common.{◌≡◌, ◌≢◌, refl, ap, ℕ, zero, suc, List, [], ◌∷◌, ◌+◌, leb, if◌then◌else◌, length}
use bsondb.Common.Patch.{patch}

pub data Status : Type 0 where
  truncated_buffer invalid_length invalid_type_byte unterminated_string : Status
  invalid_utf8 trailing_bytes missing_eoo integer_overflow max_depth_exceeded : Status
  unsupported_type : Status
  unsupported_python_type invalid_key document_too_large value_out_of_range : Status
  out_of_memory not_implemented : Status
  io invalid_file_header record_not_found index_unsupported duplicate_key : Status
  invalid_update_document read_only_violation : Status

-- `ok` is BSON_OK with the outputs of the call and `err` any other status. `fault` is no status: an
-- access outside a buffer or through a null pointer, or a signed sum that overflows. `stuck` says that a loop of the model ran out
-- of fuel.
pub data Result {ℓ} (A : Type ℓ) : Type ℓ where
  ok : A → Result A
  err : Status → Result A
  fault : Result A
  stuck : Result A

infixl 5 ◌>>=◌ ◌>>◌
abbrev pub ◌>>=◌ {ℓ κ} : {A : Type ℓ} {B : Type κ} → Result A → (A → Result B) → Result B
ok a >>= f = f a
err e >>= f = err e
fault >>= f = fault
stuck >>= f = stuck

abbrev pub ◌>>◌ {ℓ} : {B : Type ℓ} → Result (Unit {0}) → Result B → Result B
m >> k = m >>= λ _. k

-- The call comes back with a status, and with outputs that meet `P` where that is BSON_OK.
abbrev pub Returns {ℓ} : {A : Type ℓ} → (A → Type 0) → Result A → Type 0
Returns P (ok a) = P a
Returns P (err e) = Unit
Returns P fault = ⊥
Returns P stuck = ⊥

-- `buf[i]`
abbrev pub byte_at : List ℕ → ℕ → Result ℕ
byte_at [] i = fault
byte_at (b ∷ bs) zero = ok b
byte_at (b ∷ bs) (suc i) = byte_at bs i

-- `memcpy(buf + i, bytes, …)`
unfoldable pub store : List ℕ → ℕ → List ℕ → Result (List ℕ)
store buf i bytes = if leb (i + length bytes) (length buf) then ok (patch bytes i buf) else fault

module _ {ℓ κ} {A : Type ℓ} {B : Type κ} where
  pub Returns-bind :
      (P : A → Type 0) (Q : B → Type 0) (m : Result A) (f : A → Result B)
      → Returns P m
      → ((a : A) → m ≡ ok a → P a → Returns Q (f a))
      → Returns Q (m >>= f)
  Returns-bind P Q (ok a) f h k = k a refl h
  Returns-bind P Q (err e) f h k = tt
  Returns-bind P Q fault f h k = h
  Returns-bind P Q stuck f h k = h

module _ {ℓ} {A : Type ℓ} where
  pub Returns-weaken :
      (P Q : A → Type 0) (m : Result A) → Returns P m → ((a : A) → P a → Q a) → Returns Q m
  Returns-weaken P Q (ok a) h k = k a h
  Returns-weaken P Q (err e) h k = tt
  Returns-weaken P Q fault h k = h
  Returns-weaken P Q stuck h k = h

  -- What a call returns, where it returns something.
  pub Returns-eq_ok : (P : A → Type 0) (m : Result A) (a : A) → Returns P m → m ≡ ok a → P a
  Returns-eq_ok P (ok b) a h e = rw (← ok_injective e) h
    where
      value : Result A → A
      value (ok c) = c
      value _ = a

      ok_injective : ok b ≡ ok a → b ≡ a
      ok_injective p = ap value p
  Returns-eq_ok P (err s) a h e = cc
  Returns-eq_ok P fault a h e = absurd h
  Returns-eq_ok P stuck a h e = absurd h

  -- A call that comes back neither leaves its buffer nor runs out of fuel.
  pub Returns-ne : (P : A → Type 0) (m : Result A) → Returns P m → (m ≢ fault) × (m ≢ stuck)
  Returns-ne P (ok a) h = (λ e. cc, λ e. cc)
  Returns-ne P (err s) h = (λ e. cc, λ e. cc)
  Returns-ne P fault h = absurd h
  Returns-ne P stuck h = absurd h
