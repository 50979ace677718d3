-- ===== src/Bson/Utf8/Scalars.antt =====
-- The Unicode encoding form UTF-8 as a specification, and what `bson_utf8_validate` accepts.
use bsondb.Common.{
  ℕ, suc, ◌+◌, ◌*◌, ◌/◌, ◌%◌, ◌≤◌, ◌<◌, ◌≡◌, refl, ap, sym, ◌∙◌, ◌⊎◌, inl, inr, List, [], ◌∷◌, ◌++◌,
  true, none, some, arith, ltb, ◌==◌, if◌then◌else◌, bit_and, All, IsByte, Bool-cases,
}
use bsondb.Common.Bits.{and_e0, and_f0, and_f8, and_c0, and_1f, and_0f, and_07, and_3f, or_six}
use bsondb.Bson.Utf8.{Lead, lead, continuation, acceptable}

-- A Unicode scalar value: a code point that is no surrogate.
abbrev pub IsScalar : ℕ → Type 0
IsScalar c = (c < 0xd800) ⊎ ((0xe000 ≤ c) × (c < 0x110000))

-- The bytes of one scalar value.
unfoldable pub utf8_encode : ℕ → List ℕ
utf8_encode c =
    if ltb c 0x80
    then c ∷ []
    else if ltb c 0x800
    then (0xc0 + c / 64) ∷ (0x80 + c % 64) ∷ []
    else if ltb c 0x10000
    then (0xe0 + c / 4096) ∷ (0x80 + c / 64 % 64) ∷ (0x80 + c % 64) ∷ []
    else (0xf0 + c / 262144) ∷ (0x80 + c / 4096 % 64) ∷ (0x80 + c / 64 % 64) ∷ (0x80 + c % 64) ∷ []

unfoldable pub utf8_encode_all : List ℕ → List ℕ
utf8_encode_all [] = []
utf8_encode_all (c ∷ cs) = utf8_encode c ++ utf8_encode_all cs

abbrev pub two_lead : ℕ → Lead
two_lead v = record { extra = 1; bits = v; min_code_point = 0x80 }

abbrev pub three_lead : ℕ → Lead
three_lead v = record { extra = 2; bits = v; min_code_point = 0x800 }

abbrev pub four_lead : ℕ → Lead
four_lead v = record { extra = 3; bits = v; min_code_point = 0x10000 }

-- The three kinds of first byte.
pub lead_two : (v : ℕ) → v < 32 → lead (192 + v) ≡ some (two_lead v)
unfolding lead
lead_two v h = rw (and_e0 (192 + v) (omega arith), and_1f (192 + v) (omega arith)) (ground arith)

pub lead_three : (v : ℕ) → v < 16 → lead (224 + v) ≡ some (three_lead v)
unfolding lead
lead_three v h =
    rw
      (
        and_e0 (224 + v) (omega arith),
        and_f0 (224 + v) (omega arith),
        and_0f (224 + v) (omega arith),
      )
      (ground arith)

pub lead_four : (v : ℕ) → v < 8 → lead (240 + v) ≡ some (four_lead v)
unfolding lead
lead_four v h =
    rw
      (
        and_e0 (240 + v) (omega arith),
        and_f0 (240 + v) (omega arith),
        and_f8 (240 + v) (omega arith),
        and_07 (240 + v) (omega arith),
      )
      (ground arith)

pub data LeadCase (b : ℕ) (l : Lead) : Type 0 where
  two : (v : ℕ) → v < 32 → b ≡ 192 + v → l ≡ two_lead v → LeadCase b l
  three : (v : ℕ) → v < 16 → b ≡ 224 + v → l ≡ three_lead v → LeadCase b l
  four : (v : ℕ) → v < 8 → b ≡ 240 + v → l ≡ four_lead v → LeadCase b l

-- The class of a first byte, with the masks written as arithmetic.
lead_arith :
    (b : ℕ)
    → b < 256
    → lead b ≡ (
        if b / 32 * 32 == 192
        then some (two_lead (b % 32))
        else if b / 16 * 16 == 224
        then some (three_lead (b % 16))
        else if b / 8 * 8 == 240
        then some (four_lead (b % 8))
        else none)
unfolding lead
lead_arith b h = rw (and_e0 b h, and_f0 b h, and_f8 b h, and_1f b h, and_0f b h, and_07 b h) refl

pub lead_cases : (b : ℕ) (l : Lead) → b < 256 → lead b ≡ some l → LeadCase b l
lead_cases b l h e = elim (Bool-cases (b / 32 * 32 == 192)) [
  | inl p ↦ two (b % 32) (omega arith) (ground arith) (ground (arith, lead_arith b h))
  | inr p ↦ elim (Bool-cases (b / 16 * 16 == 224)) [
    | inl q ↦ three (b % 16) (omega arith) (ground arith) (ground (arith, lead_arith b h))
    | inr q ↦ elim (Bool-cases (b / 8 * 8 == 240)) [
      | inl r ↦ four (b % 8) (omega arith) (ground arith) (ground (arith, lead_arith b h))
      | inr r ↦ absurd (ground (arith, lead_arith b h))
    ]
  ]
]

-- One continuation byte read, and what a successful read says.
pub continuation_step :
    (n x c : ℕ) (rest : List ℕ)
    → x < 64
    → continuation (suc n) ((128 + x) ∷ rest) c ≡ continuation n rest (c * 64 + x)
unfolding continuation
continuation_step n x c rest h =
    rw (and_c0 (128 + x) (omega arith), and_3f (128 + x) (omega arith), low, or_six c x h)
      (ground arith)
  where
    low : (128 + x) % 64 ≡ x
    low = omega arith

-- A successful read of continuation bytes has a byte of that shape in front.
pub record Continued (n : ℕ) (rest : List ℕ) (c r : ℕ) : Type 0 where
  pub x : ℕ
  pub rest' : List ℕ
  pub shape : rest ≡ (128 + x) ∷ rest'
  pub digit : x < 64
  pub bytes : All IsByte rest'
  pub more : continuation n rest' (c * 64 + x) ≡ some r

pub continuation_inv :
    (n : ℕ) (rest : List ℕ) (c r : ℕ)
    → All IsByte rest
    → continuation (suc n) rest c ≡ some r
    → Continued n rest c r
unfolding continuation
continuation_inv n [] c r h e = cc
continuation_inv n (b ∷ rest) c r (hb, h) e = record {
  x = b % 64;
  rest' = rest;
  shape = ap (λ t. t ∷ rest) top;
  digit = omega arith;
  bytes = h;
  more =
      sym (continuation_step n (b % 64) c rest (omega arith))
      ∙ (λ i. continuation (suc n) (sym top i ∷ rest) c)
      ∙ e;
}
  where
    high : bit_and b 0xc0 ≡ 128
    high = ground arith

    top : b ≡ 128 + b % 64
    top = omega (arith, high, and_c0 b hb)

pub acceptable_inv : (m c : ℕ) → acceptable m c ≡ true → (m ≤ c) × IsScalar c
unfolding acceptable
acceptable_inv m c e = ground arith

pub acceptable_scalar : (m c : ℕ) → m ≤ c → IsScalar c → acceptable m c ≡ true
unfolding acceptable
acceptable_scalar m c h k = ground arith

pub encode_two :
    (v x : ℕ)
    → v < 32
    → x < 64
    → 0x80 ≤ v * 64 + x
    → utf8_encode (v * 64 + x) ≡ (192 + v) ∷ (128 + x) ∷ []
unfolding utf8_encode
encode_two v x hv hx h = ground arith

pub encode_three :
    (v x y : ℕ)
    → v < 16
    → x < 64
    → y < 64
    → 0x800 ≤ (v * 64 + x) * 64 + y
    → utf8_encode ((v * 64 + x) * 64 + y) ≡ (224 + v) ∷ (128 + x) ∷ (128 + y) ∷ []
unfolding utf8_encode
encode_three v x y hv hx hy h = ground arith

pub encode_four :
    (v x y z : ℕ)
    → v < 8
    → x < 64
    → y < 64
    → z < 64
    → 0x10000 ≤ ((v * 64 + x) * 64 + y) * 64 + z
    → utf8_encode (((v * 64 + x) * 64 + y) * 64 + z)
      ≡ (240 + v) ∷ (128 + x) ∷ (128 + y) ∷ (128 + z) ∷ []
unfolding utf8_encode
encode_four v x y z hv hx hy hz h = ground arith
