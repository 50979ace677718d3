-- ===== src/Codec/Tests.antt =====
-- The codec at concrete inputs.
use bsondb.Common.{ℕ, zero, suc, from_le, ◌≡◌, refl, List, [], ◌∷◌, some, arith}
use bsondb.Common.Int.{ℤ, pos, negsuc}
use bsondb.Bson.Result.{ok}
use bsondb.Codec.Calendar.{
  DateTime, naive, days_from_civil, civil_from_days, datetime_to_epoch_ms, datetime_from_epoch_ms,
}
use bsondb.Codec.Calendar.Days.{IsDate, civil_from_days-days_from_civil}
use bsondb.Codec.Calendar.Millis.{
  IsDateTime, Decoded, cut, datetime_from_epoch_ms_lem, datetime_round_trip,
}
use bsondb.Codec.Decode.{decode}
use bsondb.Codec.Decode.Steps.{IsTimely}
use bsondb.Codec.Decode.Bounds.{Decodes, decode_safe}

-- The last day of February 2024, a second before midnight.
abbrev leap_day : DateTime
leap_day = record {
  date = record { year = pos 2024; month = 2; day = 29 };
  hour = 23;
  minute = 59;
  second = 59;
  microsecond = 999999;
  offset = naive;
}

leap_day-IsDate : IsDate 2024 2 29
leap_day-IsDate = record {
  year_in = omega arith;
  month_in = (omega arith, omega arith);
  day_in = (omega arith, omega arith);
}

leap_day-IsDateTime : IsDateTime leap_day
leap_day-IsDateTime = record {
  date = leap_day-IsDate;
  year = refl;
  last = omega arith;
  hour = omega arith;
  minute = omega arith;
  second = omega arith;
  microsecond = omega arith;
  naive = refl;
}

civil_from_days-days_from_civil_example :
    civil_from_days (days_from_civil (pos 2024) 2 29)
    ≡ record { year = pos 2024; month = 2; day = 29 }
civil_from_days-days_from_civil_example = civil_from_days-days_from_civil 2024 2 29 leap_day-IsDate

datetime_round_trip_example :
    (ms : ℤ) × (datetime_to_epoch_ms leap_day ≡ some ms)
    × (datetime_from_epoch_ms ms ≡ ok (cut leap_day))
datetime_round_trip_example = datetime_round_trip leap_day leap_day-IsDateTime

datetime_from_epoch_ms_lem_example : Decoded (negsuc 0) (datetime_from_epoch_ms (negsuc 0))
datetime_from_epoch_ms_lem_example = datetime_from_epoch_ms_lem (negsuc 0) refl

-- `{"a": {"b": True}}`
abbrev nested_document : List ℕ
nested_document = 17 ∷ 0 ∷ 0 ∷ 0 ∷ 3 ∷ 97 ∷ 0 ∷ 9 ∷ 0 ∷ 0 ∷ 0 ∷ 8 ∷ 98 ∷ 0 ∷ 1 ∷ 0 ∷ 0 ∷ []

nested_document-IsTimely : IsTimely nested_document
unfolding from_le
nested_document-IsTimely zero h = refl
nested_document-IsTimely (suc zero) h = refl
nested_document-IsTimely (suc (suc zero)) h = refl
nested_document-IsTimely (suc (suc (suc zero))) h = refl
nested_document-IsTimely (suc (suc (suc (suc zero)))) h = refl
nested_document-IsTimely (suc (suc (suc (suc (suc zero))))) h = refl
nested_document-IsTimely (suc (suc (suc (suc (suc (suc zero)))))) h = refl
nested_document-IsTimely (suc (suc (suc (suc (suc (suc (suc zero))))))) h = refl
nested_document-IsTimely (suc (suc (suc (suc (suc (suc (suc (suc zero)))))))) h = refl
nested_document-IsTimely (suc (suc (suc (suc (suc (suc (suc (suc (suc zero))))))))) h = refl
nested_document-IsTimely (suc (suc (suc (suc (suc (suc (suc (suc (suc (suc i)))))))))) h =
    absurd (omega (arith, h))

decode_safe_example : Decodes (decode nested_document)
decode_safe_example = decode_safe nested_document (omega arith) nested_document-IsTimely
