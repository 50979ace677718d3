-- ===== src/Codec/Calendar/Millis.antt =====
-- Datetimes and milliseconds since 1970: what the encoder and the decoder make of each other.
use bsondb.Common.{
  ℕ, zero, suc, ◌+◌, ◌-◌, ◌*◌, ◌/◌, ◌%◌, ◌≤◌, ◌<◌, ◌≡◌, refl, sym, ap, ◌^◌, ◌∙◌, ◌⊎◌, inl, inr,
  true, false, Option, none, some, ◌==◌, if◌then◌else◌, arith, Bool-cases,
}
use native.Mathlib.Decide.{dec_le}
use bsondb.Bson.Result.{Result, ok, err, fault, value_out_of_range}
use bsondb.Common.Int.{
  ℤ, pos, negsuc, pos_part, sub_ℕ, ◌+ℤ◌, ◌-ℤ◌, ◌*ℤ◌, quot, rem, add_pos, sub_pos, mul_pos, ltb_ℤ,
  ltb_pos, mul_neg, sub_neg, ltb_neg, neg_minus, neg_plus, negsuc_lem,
}
use bsondb.Codec.Calendar.{
  days_from_civil, civil_from_days, Civil, floordiv_i64, DateTime, naive, day_ms, time_ms,
  datetime_to_epoch_ms, datetime_at, in_python_range, fits_i64, datetime_from_epoch_ms,
}
use bsondb.Codec.Calendar.Dates.{Dated, civil_from_days-Dated}
use bsondb.Codec.Calendar.Days.{
  days_from_civil-eq, day_number-small, IsDate, civil_from_days-days_from_civil,
}

quot_neg : (m : ℕ) → quot (sub_ℕ 0 m) day_ms ≡ sub_ℕ 0 (m / day_ms)
unfolding quot
quot_neg zero = refl
quot_neg (suc m) = ap (λ z. quot z day_ms) (sym (negsuc_lem m))

floordiv_pos : (m : ℕ) → floordiv_i64 (pos m) day_ms ≡ pos (m / day_ms)
unfolding floordiv_i64 rem quot
floordiv_pos m = rw (
  mul_pos (m / day_ms) day_ms,
  sub_pos m (m / day_ms * day_ms) (omega arith),
  ltb_pos (m - m / day_ms * day_ms),
)

floordiv_neg :
    (m q : ℕ)
    → q * day_ms < m + day_ms
    → m ≤ q * day_ms
    → floordiv_i64 (sub_ℕ 0 m) day_ms ≡ sub_ℕ 0 q
unfolding floordiv_i64 rem
floordiv_neg m q lo hi = elim (Bool-cases (m - m / day_ms * day_ms == 0)) [
  | inl t ↦
      let same : m / day_ms ≡ q = ground (arith, t, lo, hi) in
      rw (
        quot_neg m,
        mul_neg (m / day_ms) day_ms,
        sub_neg m (m / day_ms * day_ms) (omega arith),
        ltb_neg (m - m / day_ms * day_ms),
        t,
        same,
      )
  | inr f ↦
      let same : m / day_ms + 1 ≡ q = ground (arith, f, lo, hi) in
      rw (
        quot_neg m,
        mul_neg (m / day_ms) day_ms,
        sub_neg m (m / day_ms * day_ms) (omega arith),
        ltb_neg (m - m / day_ms * day_ms),
        f,
        neg_minus (m / day_ms) 1,
        same,
      )
]

floordiv_lem :
    (days : ℤ) (t : ℕ) → t < day_ms → floordiv_i64 ((days *ℤ day_ms) +ℤ pos t) day_ms ≡ days
floordiv_lem (pos n) t h =
    let whole : (n * day_ms + t) / day_ms ≡ n = omega (arith, h) in
    rw (mul_pos n day_ms, add_pos (n * day_ms) t, floordiv_pos (n * day_ms + t), whole)
floordiv_lem (negsuc n) t h = rw (
  negsuc_lem n,
  mul_neg (suc n) day_ms,
  neg_plus (suc n * day_ms) t (omega (arith, h)),
  floordiv_neg (suc n * day_ms - t) (suc n) (omega (arith, h)) (omega arith),
)

rest_lem : (days : ℤ) (t : ℕ) → pos_part (((days *ℤ day_ms) +ℤ pos t) -ℤ (days *ℤ day_ms)) ≡ t
unfolding ◌+ℤ◌ ◌-ℤ◌ ◌*ℤ◌
rest_lem days t = ground arith

-- The fields of a datetime that Python has, without an offset.
pub record IsDateTime (t : DateTime) : Type 0 where
  pub date : IsDate (pos_part t.date.year) t.date.month t.date.day
  pub year : t.date.year ≡ pos (pos_part t.date.year)
  pub last : pos_part t.date.year ≤ 9999
  pub hour : t.hour < 24
  pub minute : t.minute < 60
  pub second : t.second < 60
  pub microsecond : t.microsecond < 1000000
  pub naive : t.offset ≡ naive

time-small : (t : DateTime) → IsDateTime t → time_ms t < day_ms
time-small t h = omega (arith, h.hour, h.minute, h.second, h.microsecond)

-- A datetime as BSON keeps it: no offset, and no fraction of a millisecond.
abbrev pub cut : DateTime → DateTime
cut t = record t { microsecond = t.microsecond / 1000 * 1000 }

-- Milliseconds as whole days and the rest.
pub record Split (ms : ℤ) : Type 0 where
  pub days : ℤ
  pub rest : ℕ
  pub small : rest < day_ms
  pub eq : ms ≡ (days *ℤ day_ms) +ℤ pos rest

split : (ms : ℤ) → Split ms
split (pos n) = record {
  days = pos (n / day_ms);
  rest = n % day_ms;
  small = omega arith;
  eq =
      let whole : n ≡ n / day_ms * day_ms + n % day_ms = omega arith in
      ap pos whole
      ∙ sym (rw (mul_pos (n / day_ms) day_ms, add_pos (n / day_ms * day_ms) (n % day_ms)));
}
split (negsuc n) = record {
  days = sub_ℕ 0 (n / day_ms + 1);
  rest = (n / day_ms + 1) * day_ms - suc n;
  small = omega arith;
  eq =
      let whole : suc n ≡ (n / day_ms + 1) * day_ms - ((n / day_ms + 1) * day_ms - suc n) =
        omega arith in
      negsuc_lem n
      ∙ ap (sub_ℕ 0) whole
      ∙ sym (
          rw (
            mul_neg (n / day_ms + 1) day_ms,
            neg_plus ((n / day_ms + 1) * day_ms) ((n / day_ms + 1) * day_ms - suc n) (omega arith),
          ));
}

time_back : (rest : ℕ) (date : Civil) → rest < day_ms → time_ms (datetime_at date rest) ≡ rest
time_back rest date h = omega (arith, h)

from_split :
    (days : ℤ) (rest : ℕ)
    → rest < day_ms
    → fits_i64 (days *ℤ day_ms) ≡ true
    → datetime_from_epoch_ms ((days *ℤ day_ms) +ℤ pos rest) ≡ (
        if in_python_range (civil_from_days days).year
        then ok (datetime_at (civil_from_days days) rest)
        else err value_out_of_range)
unfolding datetime_from_epoch_ms
from_split days rest h fits = rw (floordiv_lem days rest h, rest_lem days rest, fits)

from_overflow :
    (days : ℤ) (rest : ℕ)
    → rest < day_ms
    → fits_i64 (days *ℤ day_ms) ≡ false
    → datetime_from_epoch_ms ((days *ℤ day_ms) +ℤ pos rest) ≡ fault
unfolding datetime_from_epoch_ms
from_overflow days rest h over = rw (floordiv_lem days rest h, over)

-- The first whole day of an `int64_t` of milliseconds begins here: -106751991167 days.
abbrev pub first_ms : ℤ
first_ms = negsuc 9223372036828799999

overflow_early :
    (days : ℤ) (rest : ℕ)
    → rest < day_ms
    → fits_i64 (days *ℤ day_ms) ≡ false
    → fits_i64 ((days *ℤ day_ms) +ℤ pos rest) ≡ true
    → ltb_ℤ ((days *ℤ day_ms) +ℤ pos rest) first_ms ≡ true
unfolding ◌+ℤ◌ ◌*ℤ◌
overflow_early (pos n) rest h over fits = ground (arith, h, over, fits)
overflow_early (negsuc n) rest h over fits = ground (arith, h, over, fits)

module _ (days : ℤ) (rest : ℕ) (small : rest < day_ms) (d : Dated days) where
  abbrev decoded : DateTime
  decoded = datetime_at (record { year = pos d.year; month = d.month; day = d.day }) rest

  decoded-IsDateTime : IsDateTime decoded
  decoded-IsDateTime = record {
    date = d.date;
    year = refl;
    last = d.last;
    hour = omega (arith, small);
    minute = omega (arith, small);
    second = omega arith;
    microsecond = omega arith;
    naive = refl;
  }

  decoded_back : datetime_to_epoch_ms decoded ≡ some ((days *ℤ day_ms) +ℤ pos rest)
  unfolding datetime_to_epoch_ms
  decoded_back =
      rw (d.back, time_back rest (record { year = pos d.year; month = d.month; day = d.day }) small)

datetime_at-time_ms : (t : DateTime) → IsDateTime t → datetime_at t.date (time_ms t) ≡ cut t
datetime_at-time_ms t h =
    let hour : time_ms t / 3600000 ≡ t.hour = omega (arith, h.minute, h.second, h.microsecond) in
    let minute : time_ms t % 3600000 / 60000 ≡ t.minute =
      omega (arith, h.minute, h.second, h.microsecond) in
    let second : time_ms t % 3600000 % 60000 / 1000 ≡ t.second =
      omega (arith, h.minute, h.second, h.microsecond) in
    let micro : time_ms t % 3600000 % 60000 % 1000 * 1000 ≡ t.microsecond / 1000 * 1000 =
      omega (arith, h.minute, h.second, h.microsecond) in
    rw (hour, minute, second, micro, h.naive)

fits_pos : (k : ℕ) → k < 2 ^ 62 → fits_i64 (pos k) ≡ true
fits_pos k h = ground (arith, h)

fits_neg : (k : ℕ) → k < 2 ^ 62 → fits_i64 (sub_ℕ 0 k) ≡ true
fits_neg zero h = refl
fits_neg (suc k) h = ap fits_i64 (sym (negsuc_lem k)) ∙ ground (arith, h)

below : (n : ℕ) → n < 719468 → pos n -ℤ pos 719468 ≡ sub_ℕ 0 (719468 - n)
unfolding ◌-ℤ◌
below n h = ground (arith, h)

few_days : (n : ℕ) → n < 3652425 → fits_i64 ((pos n -ℤ pos 719468) *ℤ day_ms) ≡ true
few_days n h = elim (dec_le 719468 n) [
  | yes p ↦
      rw (sub_pos n 719468 p, mul_pos (n - 719468) day_ms)
        (fits_pos ((n - 719468) * day_ms) (omega (arith, h)))
  | no p ↦
      rw (below n (omega arith), mul_neg (719468 - n) day_ms)
        (fits_neg ((719468 - n) * day_ms) (omega arith))
]

-- The days of such a datetime are few.
days-fit :
    (t : DateTime)
    → IsDateTime t
    → fits_i64 (days_from_civil t.date.year t.date.month t.date.day *ℤ day_ms) ≡ true
days-fit t h =
    let year = pos_part t.date.year in
    let few = day_number-small year t.date.month t.date.day h.date in
    ap (λ y. fits_i64 (days_from_civil y t.date.month t.date.day *ℤ day_ms)) h.year
    ∙ ap (λ d. fits_i64 (d *ℤ day_ms)) (days_from_civil-eq year t.date.month t.date.day h.date)
    ∙ few_days _ (omega (arith, few, h.last))

-- A naive datetime of Python, encoded and decoded, comes back cut to whole milliseconds.
pub datetime_round_trip :
    (t : DateTime)
    → IsDateTime t
    → (ms : ℤ) × (datetime_to_epoch_ms t ≡ some ms) × (datetime_from_epoch_ms ms ≡ ok (cut t))
unfolding datetime_to_epoch_ms
datetime_round_trip t h =
    let days = days_from_civil t.date.year t.date.month t.date.day in
    let there =
      ap (λ y. civil_from_days (days_from_civil y t.date.month t.date.day)) h.year
      ∙ civil_from_days-days_from_civil (pos_part t.date.year) t.date.month t.date.day h.date
      ∙ ap (λ y. record t.date { year = y }) (sym h.year) in
    let ranged : in_python_range (pos (pos_part t.date.year)) ≡ true =
      ground (arith, h.date.year_in, h.last) in
    (
      (days *ℤ day_ms) +ℤ pos (time_ms t),
      rw h.naive,
      from_split days (time_ms t) (time-small t h) (days-fit t h)
          ∙ rw (there, ap in_python_range h.year ∙ ranged) (ap ok (datetime_at-time_ms t h)),
    )

-- No datetime that Python has is encoded as these milliseconds.
abbrev pub Unencoded : ℤ → Type 0
Unencoded ms = ¬ ((t : DateTime) × IsDateTime t × (datetime_to_epoch_ms t ≡ some ms))

datetime_from-Unencoded :
    (ms : ℤ) → datetime_from_epoch_ms ms ≡ err value_out_of_range → Unencoded ms
datetime_from-Unencoded ms e (t, h, e') =
    let (ms', there, back) = datetime_round_trip t h in
    let same : ms' ≡ ms = ap (λ o. unwrap o) (sym there ∙ e') in
    absurd (cc (sym e ∙ ap datetime_from_epoch_ms (sym same) ∙ back))
  where
    unwrap : Option ℤ → ℤ
    unwrap none = ms
    unwrap (some n) = n

-- What the decoder makes of an `int64_t` of milliseconds.
abbrev pub Decoded : ℤ → Result DateTime → Type 0
Decoded ms r =
    ((r ≡ fault) × (ltb_ℤ ms first_ms ≡ true))
    ⊎ (((r ≡ err value_out_of_range) × Unencoded ms)
        ⊎ ((t : DateTime) × (r ≡ ok t)
            × IsDateTime t
            × (cut t ≡ t)
            × (datetime_to_epoch_ms t ≡ some ms)))

-- For every `int64_t` of milliseconds: below -9223372036828800000 the product of `datetime_from_epoch_ms`
-- may overflow; or the milliseconds are refused with VALUE_OUT_OF_RANGE, and are then those of no
-- datetime that Python has; or they give a naive datetime that Python has, of whole milliseconds, of
-- which the encoder makes the same milliseconds.
pub datetime_from_epoch_ms_lem :
    (ms : ℤ) → fits_i64 ms ≡ true → Decoded ms (datetime_from_epoch_ms ms)
datetime_from_epoch_ms_lem ms int64 =
    let s = split ms in
    elim (Bool-cases (fits_i64 (s.days *ℤ day_ms))) [
      | inr over ↦ inl (
        ap datetime_from_epoch_ms s.eq ∙ from_overflow s.days s.rest s.small over,
        ap (λ n. ltb_ℤ n first_ms) s.eq
            ∙ overflow_early s.days s.rest s.small over (ap fits_i64 (sym s.eq) ∙ int64),
      )
      | inl fits ↦
          let run = ap datetime_from_epoch_ms s.eq ∙ from_split s.days s.rest s.small fits in
          elim (Bool-cases (in_python_range (civil_from_days s.days).year)) [
            | inr f ↦ inr (inl (run ∙ rw f, datetime_from-Unencoded ms (run ∙ rw f)))
            | inl t ↦
                let d = civil_from_days-Dated s.days t in
                let whole : s.rest % 3600000 % 60000 % 1000 * 1000 / 1000 * 1000
                    ≡ s.rest % 3600000 % 60000 % 1000 * 1000 =
                  omega arith in
                inr (
                  inr (
                    decoded s.days s.rest s.small d,
                    run ∙ rw t (ap (λ c. ok (datetime_at c s.rest)) d.eq),
                    decoded-IsDateTime s.days s.rest s.small d,
                    ap (λ (k : ℕ). record (decoded s.days s.rest s.small d) { microsecond = k })
                        whole,
                    decoded_back s.days s.rest s.small d ∙ ap some (sym s.eq),
                  ))
          ]
    ]

-- From `first_ms` on nothing overflows.
pub datetime_from_epoch_ms-late :
    (ms : ℤ)
    → fits_i64 ms ≡ true
    → ltb_ℤ ms first_ms ≡ false
    → fits_i64 (floordiv_i64 ms day_ms *ℤ day_ms) ≡ true
datetime_from_epoch_ms-late ms int64 late =
    let s = split ms in
    let there = ap (λ n. floordiv_i64 n day_ms) s.eq ∙ floordiv_lem s.days s.rest s.small in
    elim (Bool-cases (fits_i64 (s.days *ℤ day_ms))) [
      | inl fits ↦ rw there fits
      | inr over ↦ absurd (
          cc (
            sym late
            ∙ ap (λ n. ltb_ℤ n first_ms) s.eq
            ∙ overflow_early s.days s.rest s.small over (ap fits_i64 (sym s.eq) ∙ int64)))
    ]
