-- ===== src/Codec/Calendar.antt =====
-- Dates as days since 1970-01-01, and datetimes as milliseconds: `days_from_civil`, `civil_from_days`
-- and the conversions of datetimes in _bson_core.c. A day number of an `int64_t` of milliseconds is below
-- 2 ^ 38, so only the product of a day number with the milliseconds of a day can leave `int64_t`.
pub mod Days
pub mod Dates
pub mod Millis
use bsondb.Common.{
  ℕ, zero, suc, ◌+◌, ◌-◌, ◌*◌, ◌/◌, ◌%◌, ◌^◌, Bool, true, false, ltb, leb, not, ◌==◌, ◌&&◌, ◌||◌,
  if◌then◌else◌, Option, none, some,
}
use bsondb.Bson.Result.{Result, ok, err, fault, value_out_of_range}
use bsondb.Common.Int.{ℤ, pos, negsuc, pos_part, ltb_ℤ, ◌+ℤ◌, ◌-ℤ◌, ◌*ℤ◌, quot, rem}

-- `days_from_civil`: `year` and `era` are signed, the rest is `unsigned` and does not wrap for a month
-- and a day that are positive.
unfoldable pub days_from_civil : ℤ → ℕ → ℕ → ℤ
days_from_civil year₀ month day =
    let year = year₀ -ℤ pos (if leb month 2 then 1 else 0) in
    let era = quot (if ltb_ℤ year (pos 0) then year -ℤ pos 399 else year) 400 in
    let yoe = pos_part (year -ℤ (era *ℤ 400)) in
    let doy = (153 * (if ltb 2 month then month - 3 else month + 9) + 2) / 5 + day - 1 in
    let doe = yoe * 365 + yoe / 4 - yoe / 100 + doy in (era *ℤ 146097) +ℤ pos doe -ℤ pos 719468

pub record Civil : Type 0 where
  pub year : ℤ
  pub month : ℕ
  pub day : ℕ

-- `mp + (mp < 10 ? 3 : (unsigned)-9)`
abbrev pub month_of : ℕ → ℕ
month_of mp = (mp + (if ltb mp 10 then 3 else 2 ^ 32 - 9)) % 2 ^ 32

-- The year of the era from the day in it (`doe`, 0 to 146096).
unfoldable pub year_of_doe : ℕ → ℕ
year_of_doe doe = (doe - doe / 1460 + doe / 36524 - doe / 146096) / 365

-- The date from the year and the day in it, counted from March.
unfoldable pub date_of : ℤ → ℕ → ℕ → Civil
date_of era yoe doy =
    let mp = (5 * doy + 2) / 153 in
    record {
      year = pos yoe +ℤ (era *ℤ 400) +ℤ pos (if leb (month_of mp) 2 then 1 else 0);
      month = month_of mp;
      day = doy - (153 * mp + 2) / 5 + 1;
    }

unfoldable pub civil_of : ℤ → ℕ → Civil
civil_of era doe =
    let yoe = year_of_doe doe in date_of era yoe (doe - (365 * yoe + yoe / 4 - yoe / 100))

-- `civil_from_days`
unfoldable pub civil_from_days : ℤ → Civil
civil_from_days days_since_epoch =
    let z = days_since_epoch +ℤ pos 719468 in
    let era = quot (if ltb_ℤ z (pos 0) then z -ℤ pos 146096 else z) 146097 in
    civil_of era (pos_part (z -ℤ (era *ℤ 146097)))

-- `floordiv_i64` by a positive divisor.
unfoldable pub floordiv_i64 : ℤ → ℕ → ℤ
floordiv_i64 dividend divisor =
    if ltb_ℤ (rem dividend divisor) (pos 0)
    then quot dividend divisor -ℤ pos 1
    else quot dividend divisor

-- What `utcoffset()` gives: the datetime has no tzinfo, the call fails, it gives None, or an offset,
-- here as the `int64_t` that `secs * 1000.0` is cut to.
pub data Offset : Type 0 where
  naive failed no_offset : Offset
  millis : ℤ → Offset

-- The fields of a `datetime.datetime`.
pub record DateTime : Type 0 where
  pub date : Civil
  pub hour : ℕ
  pub minute : ℕ
  pub second : ℕ
  pub microsecond : ℕ
  pub offset : Offset

abbrev pub day_ms : ℕ
day_ms = 86400000

-- The milliseconds since midnight.
abbrev pub time_ms : DateTime → ℕ
time_ms t = t.hour * 3600000 + t.minute * 60000 + t.second * 1000 + t.microsecond / 1000

-- `datetime_to_epoch_ms`: `none` stands for BSON_ERR_UNSUPPORTED_PYTHON_TYPE.
unfoldable pub datetime_to_epoch_ms : DateTime → Option ℤ
datetime_to_epoch_ms t =
    let days = days_from_civil t.date.year t.date.month t.date.day in
    let ms = (days *ℤ day_ms) +ℤ pos (time_ms t) in
    elim t.offset [
      | naive ↦ some ms
      | failed ↦ none
      | no_offset ↦ some ms
      | millis offset ↦ some (ms -ℤ offset)
    ]

-- The time of day from the milliseconds since midnight, and the date.
abbrev pub datetime_at : Civil → ℕ → DateTime
datetime_at date rem = record {
  date = date;
  hour = rem / 3600000;
  minute = rem % 3600000 / 60000;
  second = rem % 3600000 % 60000 / 1000;
  microsecond = rem % 3600000 % 60000 % 1000 * 1000;
  offset = naive;
}

abbrev pub in_python_range : ℤ → Bool
in_python_range year = not (ltb_ℤ year (pos 1) || ltb_ℤ (pos 9999) year)

abbrev pub fits_i64 : ℤ → Bool
fits_i64 n = not (ltb_ℤ n (negsuc (2 ^ 63 - 1))) && ltb_ℤ n (pos (2 ^ 63))

-- `datetime_from_epoch_ms`: `days * 86400000LL` overflows near INT64_MIN, which C leaves undefined. Up to `PyDateTime_FromDateAndTime` of these fields.
unfoldable pub datetime_from_epoch_ms : ℤ → Result DateTime
datetime_from_epoch_ms ms =
    let days = floordiv_i64 ms day_ms in
    let date = civil_from_days days in
    if fits_i64 (days *ℤ day_ms)
    then (if in_python_range date.year
        then ok (datetime_at date (pos_part (ms -ℤ (days *ℤ day_ms))))
        else err value_out_of_range)
    else fault
