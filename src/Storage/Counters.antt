-- ===== src/Storage/Counters.antt =====
-- How writes change the counters of the header and the bytes behind it.
use bsondb.Common.{
  ℕ, ◌+◌, ◌≤◌, ◌≡◌, sym, ap, ◌∙◌, List, ◌++◌, length, take, drop, slice, arith, to_le, length-to_le,
}
use bsondb.Common.Patch.{
  patch, length-patch, slice-patch_self, slice-patch_before, drop-patch_after, drop-patch,
  patch-append,
}
use bsondb.Storage.Image.{HasCounters}

pub slice-patch_after :
    (bs : List ℕ) (i j n : ℕ) (xs : List ℕ)
    → i + length bs ≤ j
    → i + length bs ≤ length xs
    → slice (patch bs i xs) j n ≡ slice xs j n
slice-patch_after bs i j n xs h hx = ap (λ t. take n t) (drop-patch_after bs i j xs h hx)

-- A field of eight bytes that was just written.
pub field_written :
    (off v : ℕ) (b : List ℕ) → off ≤ length b → slice (patch (to_le 8 v) off b) off 8 ≡ to_le 8 v
field_written off v b h =
    ap (λ (n : ℕ). slice (patch (to_le 8 v) off b) off n) (sym (length-to_le 8 v))
    ∙ slice-patch_self (to_le 8 v) off b h

module _ {b : List ℕ} {data_end live total : ℕ} (h : HasCounters b data_end live total)
    (long : 64 ≤ length b) where
  pub set_data_end : (v : ℕ) → HasCounters (patch (to_le 8 v) 16 b) v live total
  set_data_end v = record {
    data_end_field = field_written 16 v b (omega arith);
    live_field =
        slice-patch_after (to_le 8 v) 16 24 8 b (omega (arith, length-to_le 8 v))
          (omega (arith, length-to_le 8 v))
        ∙ h.live_field;
    total_field =
        slice-patch_after (to_le 8 v) 16 32 8 b (omega (arith, length-to_le 8 v))
          (omega (arith, length-to_le 8 v))
        ∙ h.total_field;
  }

  pub set_live : (v : ℕ) → HasCounters (patch (to_le 8 v) 24 b) data_end v total
  set_live v = record {
    data_end_field = slice-patch_before (to_le 8 v) 24 16 8 b (omega arith) ∙ h.data_end_field;
    live_field = field_written 24 v b (omega arith);
    total_field =
        slice-patch_after (to_le 8 v) 24 32 8 b (omega (arith, length-to_le 8 v))
          (omega (arith, length-to_le 8 v))
        ∙ h.total_field;
  }

  pub set_total : (v : ℕ) → HasCounters (patch (to_le 8 v) 32 b) data_end live v
  set_total v = record {
    data_end_field = slice-patch_before (to_le 8 v) 32 16 8 b (omega arith) ∙ h.data_end_field;
    live_field = slice-patch_before (to_le 8 v) 32 24 8 b (omega arith) ∙ h.live_field;
    total_field = field_written 32 v b (omega arith);
  }

  -- A write behind the header.
  pub write_behind-HasCounters :
      (bs : List ℕ) (i : ℕ) → 64 ≤ i → HasCounters (patch bs i b) data_end live total
  write_behind-HasCounters bs i hi = record {
    data_end_field = slice-patch_before bs i 16 8 b (omega arith) ∙ h.data_end_field;
    live_field = slice-patch_before bs i 24 8 b (omega arith) ∙ h.live_field;
    total_field = slice-patch_before bs i 32 8 b (omega arith) ∙ h.total_field;
  }

-- A counter in the header changes neither the length nor the records.
pub length-set_field :
    (off v : ℕ) (b : List ℕ) → off + 8 ≤ length b → length (patch (to_le 8 v) off b) ≡ length b
length-set_field off v b h = length-patch (to_le 8 v) off b (omega (arith, length-to_le 8 v))

pub body-set_field :
    (off v : ℕ) (b : List ℕ)
    → off + 8 ≤ 64
    → 64 ≤ length b
    → drop 64 (patch (to_le 8 v) off b) ≡ drop 64 b
body-set_field off v b h hb =
    drop-patch_after (to_le 8 v) off 64 b (omega (arith, length-to_le 8 v))
      (omega (arith, length-to_le 8 v))

-- A write behind the records `xs`, seen from the end of the header.
pub body-patch :
    (bs : List ℕ) (i : ℕ) (b xs ys : List ℕ)
    → i ≡ 64 + length xs
    → i ≤ length b
    → drop 64 b ≡ xs ++ ys
    → drop 64 (patch bs i b) ≡ xs ++ (bs ++ drop (length bs) ys)
body-patch bs i b xs ys e h body =
    drop-patch bs 64 i (length xs) b e h
    ∙ ap (λ t. patch bs (length xs) t) body
    ∙ patch-append bs xs ys
