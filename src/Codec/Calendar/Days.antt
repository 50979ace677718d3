-- ===== src/Codec/Calendar/Days.antt =====
-- Dates and day numbers: the two conversions are inverse to each other.
use bsondb.Common.{
  ℕ, ◌+◌, ◌-◌, ◌*◌, ◌/◌, ◌%◌, ◌≤◌, ◌<◌, ◌≡◌, ap, ◌∙◌, ◌⊎◌, Bool, ltb, leb, not, ◌==◌, ◌&&◌, ◌||◌,
  if◌then◌else◌, arith,
}
use bsondb.Common.Int.{ℤ, pos, ◌+ℤ◌, ◌-ℤ◌, ◌*ℤ◌, quot, add_pos, sub_pos, mul_pos, ltb_pos}
use bsondb.Codec.Calendar.{
  days_from_civil, civil_from_days, year_of_doe, date_of, civil_of, month_of,
}

abbrev pub is_leap : ℕ → Bool
is_leap year = (year % 4 == 0) && (not (year % 100 == 0) || (year % 400 == 0))

abbrev pub days_in_month : ℕ → ℕ → ℕ
days_in_month year month =
    if month == 2
    then (if is_leap year then 29 else 28)
    else if (month == 4) || ((month == 6) || ((month == 9) || (month == 11)))
    then 30
    else 31

-- The day of the year from March on, and the day of the era.
abbrev pub doy_of : ℕ → ℕ → ℕ
doy_of mp d = (153 * mp + 2) / 5 + d - 1

abbrev pub doe_of : ℕ → ℕ → ℕ
doe_of yoe doy = yoe * 365 + yoe / 4 - yoe / 100 + doy

abbrev pub year_days : ℕ → ℕ
year_days yoe = 365 + (if is_leap (yoe + 1) then 1 else 0)

year_of_doe-doe_of :
    (yoe doy : ℕ) → yoe < 400 → doy < year_days yoe → year_of_doe (doe_of yoe doy) ≡ yoe
unfolding year_of_doe
year_of_doe-doe_of yoe doy hy hd = ground arith

doe_of-small : (yoe doy : ℕ) → yoe < 400 → doy < year_days yoe → doe_of yoe doy < 146097
doe_of-small yoe doy hy hd = ground (arith, hy, hd)

-- The month and the day from the day of a year that begins in March.
month_of_year :
    (mp d : ℕ)
    → mp < 12
    → 1 ≤ d
    → d ≤ 31
    → (d ≤ 30) ⊎ ((153 * mp + 2) / 5 + 31 ≤ (153 * (mp + 1) + 2) / 5)
    → (5 * ((153 * mp + 2) / 5 + d - 1) + 2) / 153 ≡ mp
month_of_year mp d h lo hi k = omega (arith, h, lo, hi, k)

-- Month `mp` from March on has the day `d`.
abbrev Fits : ℕ → ℕ → Type 0
Fits mp d = (1 ≤ d) × (d ≤ 31) × ((d ≤ 30) ⊎ ((153 * mp + 2) / 5 + 31 ≤ (153 * (mp + 1) + 2) / 5))

pub sum_pos : (yoe era x : ℕ) → pos yoe +ℤ (pos era *ℤ 400) +ℤ pos x ≡ pos (yoe + era * 400 + x)
sum_pos yoe era x = rw (mul_pos era 400, add_pos yoe (era * 400), add_pos (yoe + era * 400) x)

date_of-doy :
    (era yoe mp d : ℕ)
    → mp < 12
    → Fits mp d
    → date_of (pos era) yoe (doy_of mp d) ≡ record {
      year = pos (yoe + era * 400 + (if leb (month_of mp) 2 then 1 else 0));
      month = month_of mp;
      day = d;
    }
unfolding date_of
date_of-doy era yoe mp d hm (lo, hi, k) =
    let back : doy_of mp d - (153 * mp + 2) / 5 + 1 ≡ d = omega (arith, lo) in
    rw (month_of_year mp d hm lo hi k, sum_pos yoe era (if leb (month_of mp) 2 then 1 else 0), back)

module _ (era yoe mp d : ℕ) (hy : yoe < 400) (hm : mp < 12) (hd : doy_of mp d < year_days yoe)
    (fits : Fits mp d) where
  civil_of-doe : civil_of (pos era) (doe_of yoe (doy_of mp d)) ≡ record {
    year = pos (yoe + era * 400 + (if leb (month_of mp) 2 then 1 else 0));
    month = month_of mp;
    day = d;
  }
  unfolding civil_of
  civil_of-doe =
      let back : doe_of yoe (doy_of mp d) - (365 * yoe + yoe / 4 - yoe / 100) ≡ doy_of mp d =
        omega arith in
      rw (year_of_doe-doe_of yoe (doy_of mp d) hy hd, back) (date_of-doy era yoe mp d hm fits)

shift_lem : (n : ℕ) → (pos n -ℤ pos 719468) +ℤ pos 719468 ≡ pos n
unfolding ◌+ℤ◌ ◌-ℤ◌
shift_lem n = ground arith

pub from_days_pos :
    (days : ℤ) (n : ℕ)
    → days +ℤ pos 719468 ≡ pos n
    → civil_from_days days ≡ civil_of (pos (n / 146097)) (n % 146097)
unfolding civil_from_days quot
from_days_pos days n e =
    let rest : n - n / 146097 * 146097 ≡ n % 146097 = omega arith in
    rw (
      e,
      ltb_pos n,
      mul_pos (n / 146097) 146097,
      sub_pos n (n / 146097 * 146097) (omega arith),
      rest,
    )

from_days_of :
    (era doe : ℕ)
    → doe < 146097
    → civil_from_days (pos (era * 146097 + doe) -ℤ pos 719468) ≡ civil_of (pos era) doe
from_days_of era doe small =
    let era_there : (era * 146097 + doe) / 146097 ≡ era = omega (arith, small) in
    let doe_there : (era * 146097 + doe) % 146097 ≡ doe = omega (arith, small) in
    from_days_pos (pos (era * 146097 + doe) -ℤ pos 719468) (era * 146097 + doe)
      (shift_lem (era * 146097 + doe))
    ∙ rw (era_there, doe_there)

-- The fields of a date of the Gregorian calendar from year 1 on.
pub record IsDate (year month day : ℕ) : Type 0 where
  pub year_in : 1 ≤ year
  pub month_in : (1 ≤ month) × (month ≤ 12)
  pub day_in : (1 ≤ day) × (day ≤ days_in_month year month)

module _ (year month day : ℕ) (h : IsDate year month day) where
  abbrev pub shifted : ℕ
  shifted = year - (if leb month 2 then 1 else 0)

  abbrev pub mp : ℕ
  mp = if ltb 2 month then month - 3 else month + 9

  pub days_from_civil-eq :
      days_from_civil (pos year) month day
      ≡ pos (shifted / 400 * 146097 + doe_of (shifted % 400) (doy_of mp day)) -ℤ pos 719468
  unfolding days_from_civil quot
  days_from_civil-eq =
      let first : (if leb month 2 then 1 else 0) ≤ year = ground (arith, h.year_in) in
      let rest : shifted - shifted / 400 * 400 ≡ shifted % 400 = omega arith in
      rw (
        sub_pos year (if leb month 2 then 1 else 0) first,
        ltb_pos shifted,
        mul_pos (shifted / 400) 400,
        sub_pos shifted (shifted / 400 * 400) (omega arith),
        rest,
        mul_pos (shifted / 400) 146097,
        add_pos (shifted / 400 * 146097) (doe_of (shifted % 400) (doy_of mp day)),
      )

  month_there : month_of mp ≡ month
  month_there = ground (arith, h.month_in)

  mp-small : mp < 12
  mp-small = ground (arith, h.month_in)

  -- The year ends before the next one, and the month before the next.
  day-Fits : Fits mp day
  day-Fits = ground (arith, h.month_in, h.day_in)

  doy-small : doy_of mp day < year_days (shifted % 400)
  doy-small = ground (arith, h.year_in, h.month_in, h.day_in)

  pub day_number-small :
      shifted / 400 * 146097 + doe_of (shifted % 400) (doy_of mp day) < (year / 400 + 1) * 146097
  day_number-small =
      omega
        (arith, doe_of-small (shifted % 400) (doy_of mp day) (omega arith) doy-small, shifted_le)
    where
      shifted_le : shifted ≤ year
      shifted_le = omega arith

  -- A date of the Gregorian calendar from year 1 on comes back from the day number that
  -- `days_from_civil` gives it.
  pub civil_from_days-days_from_civil :
      civil_from_days (days_from_civil (pos year) month day)
      ≡ record { year = pos year; month = month; day = day }
  civil_from_days-days_from_civil =
      let back : shifted % 400 + shifted / 400 * 400 + (if leb month 2 then 1 else 0) ≡ year =
        ground (arith, h.year_in) in
      ap civil_from_days days_from_civil-eq
      ∙ from_days_of (shifted / 400) (doe_of (shifted % 400) (doy_of mp day))
          (doe_of-small (shifted % 400) (doy_of mp day) (omega arith) doy-small)
      ∙ civil_of-doe (shifted / 400) (shifted % 400) mp day (omega arith) mp-small doy-small
          day-Fits
      ∙ rw (month_there, back)
