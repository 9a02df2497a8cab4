-- ===== src/Receipt/Time.antt =====
-- The timestamps of a receipt (`utc_timestamp`, `civil_from_days` and `valid_utc_timestamp`,
-- src/receipt.rs). The seconds since 1970 that the clock gives are an argument.
use contextmesh_rs.Common.{
  ℕ, zero, suc, ◌+◌, ◌-◌, ◌*◌, ◌/◌, ◌%◌, Bool, false, not, ◌&&◌, ◌||◌, Option, none, some, [], ◌∷◌,
  ◌++◌, Bytes, ◌==◌, ltb, leb, if◌then◌else◌, length, take, drop, get_elem?,
}

-- A date: the year, the month and the day.
pub record Date : Type 0 where
  pub year : ℕ
  pub month : ℕ
  pub day : ℕ

-- `yoe` and `doy` of `civil_from_days`, from the day of the era.
unfoldable pub year_of_era : ℕ → ℕ
year_of_era doe = (doe - doe / 1460 + doe / 36_524 - doe / 146_096) / 365

abbrev pub start_of_year : ℕ → ℕ
start_of_year yoe = 365 * yoe + yoe / 4 - yoe / 100

-- `mp` counts the months from March.
unfoldable pub month_of : ℕ → ℕ
month_of mp = if ltb mp 10 then mp + 3 else mp - 9

unfoldable pub year_at : ℕ → ℕ → ℕ
unfolding month_of
year_at y mp = if leb (month_of mp) 2 then y + 1 else y

-- The date of the day `doy` of the year `y`, both counted from March.
unfoldable pub date_of : ℕ → ℕ → Date
unfolding year_at month_of
date_of y doy =
    let mp = (5 * doy + 2) / 153 in
    record { year = year_at y mp; month = month_of mp; day = doy - (153 * mp + 2) / 5 + 1 }

-- `civil_from_days`, for the days since 1970, which are not negative here.
unfoldable pub civil_from_days : ℕ → Date
civil_from_days days =
    let z = days + 719_468 in
    let era = z / 146_097 in
    let doe = z % 146_097 in
    let yoe = year_of_era doe in date_of (yoe + era * 400) (doe - start_of_year yoe)

-- The decimal digits of a number, in front of `rest`. Twenty rounds are enough for 64 bits.
unfoldable pub decimal : ℕ → ℕ → Bytes → Bytes
decimal zero n rest = rest
decimal (suc rounds) n rest =
    let more = decimal rounds (n / 10) ((b'0' + n % 10) ∷ rest) in
    if ltb n 10 then (b'0' + n) ∷ rest else more

-- `{n:0width}`: the zeros that are missing are put in front.
unfoldable pub pad : ℕ → Bytes → Bytes
pad zero s = s
pad (suc missing) s = pad missing (b'0' ∷ s)

unfoldable pub padded : ℕ → ℕ → Bytes
padded width n = let digits = decimal 20 n [] in pad (width - length digits) digits

-- `{year:04}-{month:02}-{day:02}T{hour:02}:{minute:02}:{second:02}Z`
unfoldable pub stamp : Date → ℕ → ℕ → ℕ → Bytes
stamp date hour minute second =
    let seconds = padded 2 second ++ (b'Z' ∷ []) in
    let minutes = padded 2 minute ++ (b':' ∷ seconds) in
    let hours = padded 2 hour ++ (b':' ∷ minutes) in
    let days = padded 2 date.day ++ (b'T' ∷ hours) in
    padded 4 date.year ++ (b'-' ∷ (padded 2 date.month ++ (b'-' ∷ days)))

-- `utc_timestamp` at a number of seconds since 1970.
unfoldable pub utc_timestamp : ℕ → Bytes
utc_timestamp seconds =
    let day_seconds = seconds % 86_400 in
    stamp (civil_from_days (seconds / 86_400)) (day_seconds / 3600) (day_seconds % 3600 / 60)
      (day_seconds % 60)

abbrev pub is_digit : ℕ → Bool
is_digit b = leb b'0' b && leb b b'9'

-- The closure `digits`, over the bytes of its range. At most four digits, so no sum overflows.
unfoldable pub digits : ℕ → Bytes → Option ℕ
digits value [] = some value
digits value (b ∷ bs) =
    let rest = digits (value * 10 + (b - b'0')) bs in if is_digit b then rest else none

-- `&bytes[from..to]`
abbrev pub slice : ℕ → ℕ → Bytes → Bytes
slice from to s = take (to - from) (drop from s)

-- `bytes[i] == b`
unfoldable pub byte_is : Bytes → ℕ → ℕ → Bool
byte_is s i b = elim (get_elem? s i) [ none ↦ false | some c ↦ c == b ]

-- `let (Some(year), …) = … else { return false }` and the tests behind it.
unfoldable pub in_ranges : Option ℕ → Option ℕ → Option ℕ → Option ℕ → Option ℕ → Option ℕ → Bool
in_ranges (some year) (some month) (some day) (some hour) (some minute) (some second) =
    if ltb year 1970 || (not (leb 1 month && leb month 12) || not (leb 1 day && leb day 31))
    then false
    else leb hour 23 && (leb minute 59 && leb second 59)
in_ranges _ _ _ _ _ _ = false

unfoldable pub valid_utc_timestamp : Bytes → Bool
valid_utc_timestamp s =
    if not (length s == 20)
    then false
    else if not (byte_is s 4 b'-')
        || (not (byte_is s 7 b'-')
            || (not (byte_is s 10 b'T')
                || (not (byte_is s 13 b':')
                    || (not (byte_is s 16 b':') || not (byte_is s 19 b'Z')))))
    then false
    else in_ranges (digits 0 (slice 0 4 s)) (digits 0 (slice 5 7 s)) (digits 0 (slice 8 10 s))
        (digits 0 (slice 11 13 s)) (digits 0 (slice 14 16 s)) (digits 0 (slice 17 19 s))
