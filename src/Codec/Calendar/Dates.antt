-- ===== src/Codec/Calendar/Dates.antt =====
-- Every day number whose year Python has is that of a date of the calendar.
use bsondb.Common.{
  ℕ, suc, ◌+◌, ◌-◌, ◌*◌, ◌/◌, ◌%◌, ◌≤◌, ◌<◌, ◌≡◌, refl, sym, ap, ◌∙◌, Bool, true, false, ltb, leb,
  if◌then◌else◌, arith,
}
use bsondb.Common.Int.{ℤ, pos, negsuc, pos_part, ltb_ℤ, sub_ℕ, ◌+ℤ◌, ◌-ℤ◌, ◌*ℤ◌, quot, mul_neg}
use bsondb.Codec.Calendar.{
  days_from_civil, civil_from_days, year_of_doe, date_of, civil_of, month_of, in_python_range,
}
use bsondb.Codec.Calendar.Days.{
  is_leap, days_in_month, doy_of, doe_of, year_days, sum_pos, from_days_pos, IsDate,
  days_from_civil-eq,
}

year_of_doe_lem :
    (doe : ℕ)
    → doe < 146097
    → (year_of_doe doe < 400)
      × (doe_of (year_of_doe doe) 0 ≤ doe)
      × (doe < doe_of (year_of_doe doe) 0 + year_days (year_of_doe doe))
unfolding year_of_doe
year_of_doe_lem doe h = ground (arith, h)

-- The month and the day of a day of the year.
month_lem :
    (doy : ℕ)
    → doy < 366
    → (let m = (5 * doy + 2) / 153 in
        (m < 12) × ((153 * m + 2) / 5 ≤ doy) × (doy < (153 * (m + 1) + 2) / 5))
month_lem doy h = omega (arith, h)

month_of-range : (m : ℕ) → m < 12 → (1 ≤ month_of m) × (month_of m ≤ 12)
month_of-range m h = ground (arith, h)

is_leap-era : (yoe era : ℕ) → is_leap (yoe + era * 400 + 1) ≡ is_leap (yoe + 1)
is_leap-era yoe era = ground arith

-- A day of the year lies in its month.
day_fits :
    (m doy yoe era : ℕ)
    → m < 12
    → (153 * m + 2) / 5 ≤ doy
    → doy < (153 * (m + 1) + 2) / 5
    → doy < year_days yoe
    → doy - (153 * m + 2) / 5 + 1
      ≤ days_in_month (yoe + era * 400 + (if leb (month_of m) 2 then 1 else 0)) (month_of m)
day_fits m doy yoe era h lo hi last = ground (arith, is_leap-era yoe era, h, lo, hi, last)

mp_there : (m : ℕ) → m < 12 → (if ltb 2 (month_of m) then month_of m - 3 else month_of m + 9) ≡ m
mp_there m h = ground (arith, h)

-- From a day `z` of the days since 0000-03-01.
module _ (z : ℕ) where
  abbrev era : ℕ
  era = z / 146097

  abbrev yoe : ℕ
  yoe = year_of_doe (z % 146097)

  abbrev doy : ℕ
  doy = z % 146097 - doe_of yoe 0

  abbrev m : ℕ
  m = (5 * doy + 2) / 153

  abbrev day : ℕ
  day = doy - (153 * m + 2) / 5 + 1

  abbrev extra : ℕ
  extra = if leb (month_of m) 2 then 1 else 0

  abbrev year : ℕ
  year = yoe + era * 400 + extra

  year_lem : (yoe < 400) × (doe_of yoe 0 ≤ z % 146097) × (z % 146097 < doe_of yoe 0 + year_days yoe)
  year_lem = year_of_doe_lem (z % 146097) (omega arith)

  doy-small : doy < year_days yoe
  doy-small = omega (arith, year_lem)

  doy_366 : doy < 366
  doy_366 = ground (arith, doy-small)

  month_bounds : (m < 12) × ((153 * m + 2) / 5 ≤ doy) × (doy < (153 * (m + 1) + 2) / 5)
  month_bounds = month_lem doy doy_366

  civil_eq :
      civil_of (pos era) (z % 146097) ≡ record { year = pos year; month = month_of m; day = day }
  unfolding civil_of date_of
  civil_eq =
      let same : z % 146097 - (365 * yoe + yoe / 4 - yoe / 100) ≡ doy = omega arith in
      rw (same, sum_pos yoe era extra)

  day_IsDate : 1 ≤ year → IsDate year (month_of m) day
  day_IsDate h = record {
    year_in = h;
    month_in = month_of-range m month_bounds.0;
    day_in = (
      omega arith,
      day_fits m doy yoe era month_bounds.0 month_bounds.1 month_bounds.2 doy-small,
    );
  }

  back_to_day : 1 ≤ year → days_from_civil (pos year) (month_of m) day ≡ pos z -ℤ pos 719468
  back_to_day h =
      let whole : year - extra ≡ yoe + era * 400 = omega arith in
      let in_era : (yoe + era * 400) / 400 ≡ era = omega (arith, year_lem) in
      let of_era : (yoe + era * 400) % 400 ≡ yoe = omega (arith, year_lem) in
      let doy_there : doy_of m day ≡ doy = omega (arith, month_bounds) in
      let all : era * 146097 + doe_of yoe doy ≡ z = omega (arith, year_lem) in
      days_from_civil-eq year (month_of m) day (day_IsDate h)
      ∙ rw (whole, mp_there m month_bounds.0, in_era, of_era, doy_there, all)

-- Before 0000-03-01 the year is at most 0.
year_before :
    (q yoe x : ℕ)
    → 1 ≤ q
    → yoe < 400
    → x ≤ 1
    → in_python_range (pos yoe +ℤ (sub_ℕ 0 q *ℤ 400) +ℤ pos x) ≡ false
unfolding ◌+ℤ◌
year_before q yoe x some small few = rw (mul_neg q 400) (ground (arith, some, small, few))

doe_before :
    (w q : ℕ) → w < q * 146097 → pos_part (negsuc w -ℤ (sub_ℕ 0 q *ℤ 146097)) ≡ q * 146097 - suc w
unfolding ◌-ℤ◌
doe_before w q h = rw (mul_neg q 146097) (ground (arith, h))

further : (w : ℕ) → negsuc w -ℤ pos 146096 ≡ negsuc (w + 146096)
unfolding ◌-ℤ◌
further w = ground arith

ltb_negsuc : (w : ℕ) → ltb_ℤ (negsuc w) (pos 0) ≡ true
ltb_negsuc w = ground arith

eras_before : ℕ → ℕ
eras_before w = (w + 146097) / 146097

quot_before : (w : ℕ) → quot (negsuc (w + 146096)) 146097 ≡ sub_ℕ 0 (eras_before w)
unfolding quot eras_before
quot_before w =
    let next : suc (w + 146096) ≡ w + 146097 = omega arith in
    ap (λ (k : ℕ). sub_ℕ 0 (k / 146097)) next

from_days_negsuc :
    (days : ℤ) (w : ℕ)
    → days +ℤ pos 719468 ≡ negsuc w
    → civil_from_days days ≡ civil_of (sub_ℕ 0 (eras_before w)) (eras_before w * 146097 - suc w)
unfolding civil_from_days eras_before
from_days_negsuc days w e =
    rw (
      e,
      ltb_negsuc w,
      further w,
      quot_before w,
      doe_before w ((w + 146097) / 146097) (omega arith),
    )

civil_before :
    (q doe : ℕ) → 1 ≤ q → doe < 146097 → in_python_range (civil_of (sub_ℕ 0 q) doe).year ≡ false
unfolding civil_of date_of
civil_before q doe some small =
    year_before q (year_of_doe doe)
      (if leb
          (month_of (
            (5 * (doe - (365 * year_of_doe doe + year_of_doe doe / 4 - year_of_doe doe / 100)) + 2)
            / 153))
          2
        then 1
        else 0)
      some (year_of_doe_lem doe small).0 (ground arith)

from_days_neg :
    (days : ℤ) (w : ℕ)
    → days +ℤ pos 719468 ≡ negsuc w
    → in_python_range (civil_from_days days).year ≡ false
unfolding eras_before
from_days_neg days w e =
    ap (λ c. in_python_range c.year) (from_days_negsuc days w e)
    ∙ civil_before (eras_before w) (eras_before w * 146097 - suc w) (omega arith) (omega arith)

never : (b : Bool) → b ≡ true → b ≡ false → ⊥
never b t f = ground (arith, t, f)

plus_there : (days : ℤ) (z : ℕ) → days +ℤ pos 719468 ≡ pos z → pos z -ℤ pos 719468 ≡ days
unfolding ◌+ℤ◌ ◌-ℤ◌
plus_there days z e = ground (arith, e)

-- A date that `civil_from_days` gives, with a year that Python has, is one of the calendar, and
-- `days_from_civil` gives its day number back.
pub record Dated (days : ℤ) : Type 0 where
  pub year : ℕ
  pub month : ℕ
  pub day : ℕ
  pub eq : civil_from_days days ≡ record { year = pos year; month = month; day = day }
  pub last : year ≤ 9999
  pub date : IsDate year month day
  pub back : days_from_civil (pos year) month day ≡ days

pub civil_from_days-Dated :
    (days : ℤ) → in_python_range (civil_from_days days).year ≡ true → Dated days
civil_from_days-Dated days h = go (days +ℤ pos 719468) refl
  where
    go : (s : ℤ) → days +ℤ pos 719468 ≡ s → Dated days
    go (negsuc w) e =
        absurd (never (in_python_range (civil_from_days days).year) h (from_days_neg days w e))
    go (pos z) e =
        let there = from_days_pos days z e ∙ civil_eq z in
        let ranged : in_python_range (pos (year z)) ≡ true =
          ap (λ c. in_python_range c.year) (sym there) ∙ h in
        let bounds : (1 ≤ year z) × (year z ≤ 9999) = ground (arith, ranged) in
        record {
          year = year z;
          month = month_of (m z);
          day = day z;
          eq = there;
          last = bounds.1;
          date = day_IsDate z bounds.0;
          back = back_to_day z bounds.0 ∙ plus_there days z e;
        }
