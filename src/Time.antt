-- ===== src/Time.antt =====
-- Instants, and src/lib/periodWindow.ts. An instant is the number of milliseconds since
-- 1970-01-01T00:00:00Z, from 1970-01-05 on, as the clocks of the service give it.
use Prim.Native.String.{◌++◌}
use helpan_ai.Prelude.{
  ℕ, zero, suc, ◌+◌, ◌-◌, ◌*◌, ◌/◌, ◌%◌, String, Option, some, ltb, leb, nat_eq, if◌then◌else◌,
}

abbrev pub ms_per_day : ℕ
ms_per_day = 86_400_000

pub record CivilDate : Type 0 where
  pub year : ℕ
  pub month : ℕ
  pub day : ℕ

-- The proleptic Gregorian date of a day number, what `Date.prototype.toISOString` prints before
-- its `T`; years run from March so that the leap day comes last.
unfoldable pub civil_of_days : ℕ → CivilDate
civil_of_days days =
    let z = days + 719_468 in
    let era = z / 146_097 in
    let doe = z % 146_097 in
    let yoe = (doe + doe / 36_524 - doe / 1460 - doe / 146_096) / 365 in
    let doy = doe + yoe / 100 - yoe * 365 - yoe / 4 in
    let mp = (doy * 5 + 2) / 153 in
    let month = if ltb mp 10 then mp + 3 else mp - 9 in
    record {
      year = yoe + era * 400 + (if leb month 2 then 1 else 0);
      month = month;
      day = doy + 1 - (mp * 153 + 2) / 5;
    }

abbrev digit : ℕ → String
digit zero = "0"
digit (suc zero) = "1"
digit (suc (suc zero)) = "2"
digit (suc (suc (suc zero))) = "3"
digit (suc (suc (suc (suc zero)))) = "4"
digit (suc (suc (suc (suc (suc zero))))) = "5"
digit (suc (suc (suc (suc (suc (suc zero)))))) = "6"
digit (suc (suc (suc (suc (suc (suc (suc zero))))))) = "7"
digit (suc (suc (suc (suc (suc (suc (suc (suc zero)))))))) = "8"
digit _ = "9"

pad2 : ℕ → String
pad2 n = digit (n / 10 % 10) ++ digit (n % 10)

pad3 : ℕ → String
unfolding pad2
pad3 n = digit (n / 100 % 10) ++ pad2 n

pad4 : ℕ → String
unfolding pad3
pad4 n = digit (n / 1000 % 10) ++ pad3 n

-- `Date.prototype.toISOString`, for the years up to 9999.
unfoldable pub to_iso_string : ℕ → String
unfolding civil_of_days pad4
to_iso_string ms =
    let date = civil_of_days (ms / ms_per_day) in
    let t = ms % ms_per_day in
    pad4 date.year
    ++ "-"
    ++ pad2 date.month
    ++ "-"
    ++ pad2 date.day
    ++ "T"
    ++ pad2 (t / 3_600_000)
    ++ ":"
    ++ pad2 (t / 60_000 % 60)
    ++ ":"
    ++ pad2 (t / 1000 % 60)
    ++ "."
    ++ pad3 (t % 1000)
    ++ "Z"

pub data Period : Type 0 where
  single_use daily weekly monthly : Period

-- `getUTCDay()`, Sunday = 0; 1970-01-01 was a Thursday.
abbrev pub utc_day : ℕ → ℕ
utc_day days = (days + 4) % 7

-- The Monday of the week, as a day number: `d.getUTCDate() - (day - 1)`, with Sunday as 7.
unfoldable pub week_start : ℕ → ℕ
week_start days = let day = if nat_eq (utc_day days) 0 then 7 else utc_day days in days - (day - 1)

-- The window key is the DATE that the source's text denotes: the column is a DATE.
unfoldable pub period_window_key : Option Period → ℕ → CivilDate
unfolding civil_of_days week_start
period_window_key (some Period.monthly) now = record (civil_of_days (now / ms_per_day)) { day = 1 }
period_window_key (some Period.weekly) now = civil_of_days (week_start (now / ms_per_day))
period_window_key _ now = civil_of_days (now / ms_per_day)
