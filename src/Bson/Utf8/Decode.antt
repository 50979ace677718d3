-- ===== src/Bson/Utf8/Decode.antt =====
-- A run of bytes that `sequence` accepts decodes to one scalar value.
use bsondb.Common.{
  ℕ, ◌+◌, ◌*◌, ◌<◌, ◌≡◌, ap, sym, ◌∙◌, List, ◌∷◌, ◌++◌, true, some, arith, drop, All, IsByte,
}
use bsondb.Bson.Utf8.{Lead, continuation, acceptable, sequence}
use bsondb.Bson.Utf8.Scalars.{
  IsScalar, utf8_encode, two_lead, three_lead, four_lead, LeadCase, two, three, four,
  continuation_inv, acceptable_inv, encode_two, encode_three, encode_four,
}

-- A sequence of several bytes that passes is the encoding of a scalar value.
pub record Decoded (b : ℕ) (rest : List ℕ) (n : ℕ) : Type 0 where
  pub scalar : ℕ
  pub is_scalar : IsScalar scalar
  pub shape : b ∷ rest ≡ utf8_encode scalar ++ drop n rest
  pub bytes : All IsByte (drop n rest)

sequence_inv :
    (l : Lead) (rest : List ℕ)
    → sequence l rest ≡ true
    → (r : ℕ) × (continuation l.extra rest l.bits ≡ some r) × (acceptable l.min_code_point r ≡ true)
unfolding sequence
sequence_inv l rest e = ground arith

continuation_end : (rest : List ℕ) (c r : ℕ) → continuation 0 rest c ≡ some r → r ≡ c
unfolding continuation
continuation_end rest c r e = ground arith

sequence_two :
    (b v : ℕ) (rest : List ℕ)
    → All IsByte rest
    → v < 32
    → b ≡ 192 + v
    → sequence (two_lead v) rest ≡ true
    → Decoded b rest 1
sequence_two b v rest h hv eb e =
    let (r, er, ok_r) = sequence_inv (two_lead v) rest e in
    let k = continuation_inv 0 rest v r h er in
    let (lo, sc) = acceptable_inv 0x80 r ok_r in
    let last = continuation_end k.rest' (v * 64 + k.x) r k.more in
    record {
      scalar = v * 64 + k.x;
      is_scalar = rw (← last) sc;
      shape =
          rw (encode_two v k.x hv k.digit (omega (arith, lo, last)), eb)
            (ap (λ t. (192 + v) ∷ t) (k.shape ∙ ap (λ t. (128 + k.x) ∷ drop 1 t) (sym k.shape)));
      bytes = rw k.shape k.bytes;
    }

sequence_three :
    (b v : ℕ) (rest : List ℕ)
    → All IsByte rest
    → v < 16
    → b ≡ 224 + v
    → sequence (three_lead v) rest ≡ true
    → Decoded b rest 2
sequence_three b v rest h hv eb e =
    let (r, er, ok_r) = sequence_inv (three_lead v) rest e in
    let k = continuation_inv 1 rest v r h er in
    let m = continuation_inv 0 k.rest' (v * 64 + k.x) r k.bytes k.more in
    let (lo, sc) = acceptable_inv 0x800 r ok_r in
    let last = continuation_end m.rest' ((v * 64 + k.x) * 64 + m.x) r m.more in
    let whole : rest ≡ (128 + k.x) ∷ (128 + m.x) ∷ m.rest' =
      k.shape ∙ ap (λ t. (128 + k.x) ∷ t) m.shape in
    record {
      scalar = (v * 64 + k.x) * 64 + m.x;
      is_scalar = rw (← last) sc;
      shape =
          rw (encode_three v k.x m.x hv k.digit m.digit (omega (arith, lo, last)), eb)
            (ap (λ t. (224 + v) ∷ t)
              (whole ∙ ap (λ t. (128 + k.x) ∷ (128 + m.x) ∷ drop 2 t) (sym whole)));
      bytes = rw whole m.bytes;
    }

sequence_four :
    (b v : ℕ) (rest : List ℕ)
    → All IsByte rest
    → v < 8
    → b ≡ 240 + v
    → sequence (four_lead v) rest ≡ true
    → Decoded b rest 3
sequence_four b v rest h hv eb e =
    let (r, er, ok_r) = sequence_inv (four_lead v) rest e in
    let k = continuation_inv 2 rest v r h er in
    let m = continuation_inv 1 k.rest' (v * 64 + k.x) r k.bytes k.more in
    let n = continuation_inv 0 m.rest' ((v * 64 + k.x) * 64 + m.x) r m.bytes m.more in
    let (lo, sc) = acceptable_inv 0x10000 r ok_r in
    let last = continuation_end n.rest' (((v * 64 + k.x) * 64 + m.x) * 64 + n.x) r n.more in
    let whole : rest ≡ (128 + k.x) ∷ (128 + m.x) ∷ (128 + n.x) ∷ n.rest' =
      k.shape
      ∙ ap (λ t. (128 + k.x) ∷ t) m.shape
      ∙ ap (λ t. (128 + k.x) ∷ (128 + m.x) ∷ t) n.shape in
    record {
      scalar = ((v * 64 + k.x) * 64 + m.x) * 64 + n.x;
      is_scalar = rw (← last) sc;
      shape =
          rw (encode_four v k.x m.x n.x hv k.digit m.digit n.digit (omega (arith, lo, last)), eb)
            (ap (λ t. (240 + v) ∷ t)
              (whole ∙ ap (λ t. (128 + k.x) ∷ (128 + m.x) ∷ (128 + n.x) ∷ drop 3 t) (sym whole)));
      bytes = rw whole n.bytes;
    }

pub decoded :
    (b : ℕ) (rest : List ℕ) (l : Lead)
    → All IsByte rest
    → LeadCase b l
    → sequence l rest ≡ true
    → Decoded b rest l.extra
decoded b rest l h (two v hv eb el) e = rw el (sequence_two b v rest h hv eb (rw el at e))
decoded b rest l h (three v hv eb el) e = rw el (sequence_three b v rest h hv eb (rw el at e))
decoded b rest l h (four v hv eb el) e = rw el (sequence_four b v rest h hv eb (rw el at e))
