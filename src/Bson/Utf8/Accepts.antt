-- ===== src/Bson/Utf8/Accepts.antt =====
-- `bson_utf8_validate` accepts exactly the UTF-8 encodings of sequences of scalar values.
use bsondb.Common.{
  ℕ, zero, suc, ◌+◌, ◌*◌, ◌/◌, ◌%◌, ◌≤◌, ◌<◌, ◌≡◌, refl, ap, sym, ◌∙◌, inl, inr, ◌↔◌, List, [], ◌∷◌,
  ◌++◌, true, false, some, arith, ltb, tests, ltb→lt, lt→ltb, le→ltb, subst, length, drop, All,
  IsByte, Bool-cases, length-append,
}
use bsondb.Bson.Utf8.Decode.{decoded}
use bsondb.Bson.Utf8.{Lead, lead, continuation, acceptable, sequence, utf8_loop, utf8_validate}
use bsondb.Bson.Utf8.Scalars.{
  IsScalar, utf8_encode, utf8_encode_all, two_lead, three_lead, four_lead, lead_two, lead_three,
  lead_four, lead_cases, continuation_step, acceptable_scalar, encode_two, encode_three,
  encode_four,
}

multi_inv :
    (f b : ℕ) (rest : List ℕ)
    → ltb b 0x80 ≡ false
    → utf8_loop (suc f) (b ∷ rest) ≡ true
    → (l : Lead) × (lead b ≡ some l)
      × (sequence l rest ≡ true)
      × (utf8_loop f (drop l.extra rest) ≡ true)
unfolding utf8_loop
multi_inv f b rest h e = ground arith

encode_ascii : (b : ℕ) → b < 128 → utf8_encode b ≡ b ∷ []
unfolding utf8_encode
encode_ascii b h = ground arith

-- What the loop accepts decodes to scalar values.
utf8_loop_sound :
    (fuel : ℕ) (bs : List ℕ)
    → All IsByte bs
    → utf8_loop fuel bs ≡ true
    → (cs : List ℕ) × All IsScalar cs × (bs ≡ utf8_encode_all cs)
unfolding utf8_encode_all
utf8_loop_sound fuel [] h e = ([], tt, refl)
utf8_loop_sound zero (b ∷ rest) h e = unfold utf8_loop in cc
utf8_loop_sound (suc f) (b ∷ rest) (hb, h) e = elim (Bool-cases (ltb b 0x80)) [
  | inl small ↦
      let (cs, hs, es) = utf8_loop_sound f rest h (unfold utf8_loop in ground arith) in
      (
        b ∷ cs,
        (inl (omega tests), hs),
        rw (encode_ascii b (ltb→lt b 128 small)) (ap (λ t. b ∷ t) es),
      )
  | inr big ↦
      let (l, el, es, er) = multi_inv f b rest big e in
      let d = decoded b rest l h (lead_cases b l hb el) es in
      let (cs, hs, ecs) = utf8_loop_sound f (drop l.extra rest) d.bytes er in
      (d.scalar ∷ cs, (d.is_scalar, hs), d.shape ∙ ap (λ t. utf8_encode d.scalar ++ t) ecs)
]

multi_step :
    (f b r : ℕ) (rest : List ℕ) (l : Lead)
    → ltb b 0x80 ≡ false
    → lead b ≡ some l
    → l.extra ≤ length rest
    → continuation l.extra rest l.bits ≡ some r
    → acceptable l.min_code_point r ≡ true
    → utf8_loop (suc f) (b ∷ rest) ≡ utf8_loop f (drop l.extra rest)
unfolding utf8_loop sequence
multi_step f b r rest l h el hl ec ea = ground arith

-- One round of the loop on the encoding of a scalar value.
round_two :
    (f v x : ℕ) (rest : List ℕ)
    → v < 32
    → x < 64
    → 0x80 ≤ v * 64 + x
    → IsScalar (v * 64 + x)
    → utf8_loop (suc f) (utf8_encode (v * 64 + x) ++ rest) ≡ utf8_loop f rest
round_two f v x rest hv hx lo sc = rw (encode_two v x hv hx lo) (
    multi_step f (192 + v) (v * 64 + x) ((128 + x) ∷ rest) (two_lead v) (le→ltb _ _ (omega arith))
      (lead_two v hv) (omega arith) (continuation_step 0 x v rest hx ∙ unfold continuation in refl)
      (acceptable_scalar 0x80 (v * 64 + x) lo sc))

round_three :
    (f v x y : ℕ) (rest : List ℕ)
    → v < 16
    → x < 64
    → y < 64
    → 0x800 ≤ (v * 64 + x) * 64 + y
    → IsScalar ((v * 64 + x) * 64 + y)
    → utf8_loop (suc f) (utf8_encode ((v * 64 + x) * 64 + y) ++ rest) ≡ utf8_loop f rest
round_three f v x y rest hv hx hy lo sc = rw (encode_three v x y hv hx hy lo) (
    multi_step f (224 + v) ((v * 64 + x) * 64 + y) ((128 + x) ∷ (128 + y) ∷ rest) (three_lead v)
      (le→ltb _ _ (omega arith)) (lead_three v hv) (omega arith)
      (continuation_step 1 x v ((128 + y) ∷ rest) hx
        ∙ continuation_step 0 y (v * 64 + x) rest hy
        ∙ unfold continuation in refl)
      (acceptable_scalar 0x800 ((v * 64 + x) * 64 + y) lo sc))

round_four :
    (f v x y z : ℕ) (rest : List ℕ)
    → v < 8
    → x < 64
    → y < 64
    → z < 64
    → 0x10000 ≤ ((v * 64 + x) * 64 + y) * 64 + z
    → IsScalar (((v * 64 + x) * 64 + y) * 64 + z)
    → utf8_loop (suc f) (utf8_encode (((v * 64 + x) * 64 + y) * 64 + z) ++ rest) ≡ utf8_loop f rest
round_four f v x y z rest hv hx hy hz lo sc = rw (encode_four v x y z hv hx hy hz lo) (
    multi_step f (240 + v) (((v * 64 + x) * 64 + y) * 64 + z)
      ((128 + x) ∷ (128 + y) ∷ (128 + z) ∷ rest) (four_lead v) (le→ltb _ _ (omega arith))
      (lead_four v hv) (omega arith)
      (continuation_step 2 x v ((128 + y) ∷ (128 + z) ∷ rest) hx
        ∙ continuation_step 1 y (v * 64 + x) ((128 + z) ∷ rest) hy
        ∙ continuation_step 0 z ((v * 64 + x) * 64 + y) rest hz
        ∙ unfold continuation in refl)
      (acceptable_scalar 0x10000 (((v * 64 + x) * 64 + y) * 64 + z) lo sc))

round_ascii :
    (f c : ℕ) (rest : List ℕ)
    → c < 128
    → utf8_loop (suc f) (utf8_encode c ++ rest) ≡ utf8_loop f rest
round_ascii f c rest h = rw (encode_ascii c h) (unfold utf8_loop in rw (lt→ltb c 128 h))

scalar-lt : (c : ℕ) → IsScalar c → c < 0x110000
scalar-lt c h = omega arith

-- The digits of a code point in base 64.
one_digit : (c : ℕ) → c ≡ c / 64 * 64 + c % 64
one_digit c = omega arith

two_digits : (c : ℕ) → c ≡ (c / 4096 * 64 + c / 64 % 64) * 64 + c % 64
two_digits c = omega arith

three_digits : (c : ℕ) → c ≡ ((c / 262144 * 64 + c / 4096 % 64) * 64 + c / 64 % 64) * 64 + c % 64
three_digits c = omega arith

utf8_round :
    (f c : ℕ) (rest : List ℕ)
    → IsScalar c
    → utf8_loop (suc f) (utf8_encode c ++ rest) ≡ utf8_loop f rest
utf8_round f c rest sc = elim (Bool-cases (ltb c 0x80)) [
  | inl e ↦ round_ascii f c rest (ltb→lt _ _ e)
  | inr e ↦ elim (Bool-cases (ltb c 0x800)) [
    | inl e' ↦
        subst (λ t. utf8_loop (suc f) (utf8_encode t ++ rest) ≡ utf8_loop f rest)
          (sym (one_digit c))
          (round_two f (c / 64) (c % 64) rest (omega tests) (omega arith) (omega tests)
            (subst IsScalar (one_digit c) sc))
    | inr e' ↦ elim (Bool-cases (ltb c 0x10000)) [
      | inl e'' ↦
          subst (λ t. utf8_loop (suc f) (utf8_encode t ++ rest) ≡ utf8_loop f rest)
            (sym (two_digits c))
            (round_three f (c / 4096) (c / 64 % 64) (c % 64) rest (omega tests) (omega arith)
              (omega arith) (omega tests) (subst IsScalar (two_digits c) sc))
      | inr e'' ↦
          subst (λ t. utf8_loop (suc f) (utf8_encode t ++ rest) ≡ utf8_loop f rest)
            (sym (three_digits c))
            (round_four f (c / 262144) (c / 4096 % 64) (c / 64 % 64) (c % 64) rest
              (omega (arith, scalar-lt c sc)) (omega arith) (omega arith) (omega arith)
              (omega tests) (subst IsScalar (three_digits c) sc))
    ]
  ]
]

encode_pos : (c : ℕ) → 1 ≤ length (utf8_encode c)
unfolding utf8_encode
encode_pos c = ground arith

utf8_loop_complete :
    (cs : List ℕ) (fuel : ℕ)
    → All IsScalar cs
    → length (utf8_encode_all cs) ≤ fuel
    → utf8_loop fuel (utf8_encode_all cs) ≡ true
unfolding utf8_encode_all
utf8_loop_complete [] fuel h hf = unfold utf8_loop in refl
utf8_loop_complete (c ∷ cs) zero h hf =
    absurd (omega (arith, length-append (utf8_encode c) (utf8_encode_all cs), encode_pos c))
utf8_loop_complete (c ∷ cs) (suc f) (hc, hcs) hf =
    utf8_round f c (utf8_encode_all cs) hc
    ∙ utf8_loop_complete cs f hcs
        (omega (arith, length-append (utf8_encode c) (utf8_encode_all cs), encode_pos c))

-- On any bytes, the check passes exactly when they are the UTF-8 encoding of some sequence of
-- Unicode scalar values: no overlong form, no surrogate, nothing above U+10FFFF, nothing cut off.
pub utf8_validate_iff :
    (bs : List ℕ)
    → All IsByte bs
    → (utf8_validate bs ≡ true) ↔ ((cs : List ℕ) × All IsScalar cs × (bs ≡ utf8_encode_all cs))
unfolding utf8_validate
utf8_validate_iff bs h = (
  utf8_loop_sound (length bs) bs h,
  λ p. rw p.2 (utf8_loop_complete p.0 (length (utf8_encode_all p.0)) p.1 (omega arith)),
)
