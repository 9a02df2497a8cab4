-- ===== src/Receipt/Stamp.antt =====
-- The timestamps that `utc_timestamp` renders under the test of `valid_utc_timestamp`
-- (src/receipt.rs).
use contextmesh_rs.Common.{
  ℕ, suc, ◌+◌, ◌-◌, ◌*◌, ◌/◌, ◌%◌, ◌≤◌, ◌<◌, ◌≡◌, refl, true, some, [], ◌∷◌, ◌++◌, arith, Bytes,
  ltb, Bool-cases, inl, inr, ltb→lt, ◌↔◌,
}
use contextmesh_rs.Receipt.Time.{
  Date, year_of_era, start_of_year, month_of, year_at, date_of, civil_from_days, padded, pad,
  decimal, stamp, utc_timestamp, digits, valid_utc_timestamp, in_ranges, byte_is,
}
use contextmesh_rs.Receipt.Calendar.{year_of_era-lt}

two_digits : ℕ → Bytes
two_digits n = (b'0' + n / 10) ∷ (b'0' + n % 10) ∷ []

four_digits : ℕ → Bytes
four_digits n =
    (b'0' + n / 1000) ∷ (b'0' + n / 100 % 10) ∷ (b'0' + n / 10 % 10) ∷ (b'0' + n % 10) ∷ []

decimal_last :
    (rounds n : ℕ) (rest : Bytes) → n < 10 → decimal (suc rounds) n rest ≡ (b'0' + n) ∷ rest
unfolding decimal
decimal_last rounds n rest h = ground arith

decimal_more :
    (rounds n : ℕ) (rest : Bytes)
    → 10 ≤ n
    → decimal (suc rounds) n rest ≡ decimal rounds (n / 10) ((b'0' + n % 10) ∷ rest)
unfolding decimal
decimal_more rounds n rest h = ground arith

padded_two : (n : ℕ) → n < 100 → padded 2 n ≡ two_digits n
unfolding padded pad two_digits
padded_two n h = elim (Bool-cases (ltb n 10)) [
  | inl small ↦ rw (decimal_last 19 n [] (ltb→lt n 10 small)) (ground arith)
  | inr large ↦
      rw
        (
          decimal_more 19 n [] (ground arith),
          decimal_last 18 (n / 10) ((b'0' + n % 10) ∷ []) (omega arith),
        )
        refl
]

padded_four : (n : ℕ) → 1000 ≤ n → n < 10_000 → padded 4 n ≡ four_digits n
unfolding padded pad four_digits
padded_four n h k =
    let tens : n / 10 / 10 ≡ n / 100 = omega arith in
    let hundreds : n / 100 / 10 ≡ n / 1000 = omega arith in
    rw
      (
        decimal_more 19 n [] (omega arith),
        decimal_more 18 (n / 10) ((b'0' + n % 10) ∷ []) (omega arith),
        tens,
        decimal_more 17 (n / 100) ((b'0' + n / 10 % 10) ∷ (b'0' + n % 10) ∷ []) (omega arith),
        hundreds,
        decimal_last 16 (n / 1000)
            ((b'0' + n / 100 % 10) ∷ (b'0' + n / 10 % 10) ∷ (b'0' + n % 10) ∷ []) (omega arith),
      )
      refl

digits_two : (n : ℕ) → n < 100 → digits 0 (two_digits n) ≡ some n
unfolding digits two_digits
digits_two n h = ground arith

digits_four : (n : ℕ) → n < 10_000 → digits 0 (four_digits n) ≡ some n
unfolding digits four_digits
digits_four n h = ground arith

month_of_bounds : (mp : ℕ) → mp ≤ 11 → (1 ≤ month_of mp) × (month_of mp ≤ 12)
unfolding month_of
month_of_bounds mp h = ground arith

date_of_bounds :
    (y doy : ℕ)
    → doy < 366
    → (1 ≤ (date_of y doy).month)
      × ((date_of y doy).month ≤ 12)
      × (1 ≤ (date_of y doy).day)
      × ((date_of y doy).day ≤ 31)
unfolding date_of
date_of_bounds y doy h = omega (arith, month_of_bounds ((5 * doy + 2) / 153))

date_of_year :
    (y doy : ℕ)
    → doy < 366
    → (y ≤ (date_of y doy).year)
      × ((date_of y doy).year ≤ y + 1)
      × ((306 ≤ doy) ↔ ((date_of y doy).year ≡ y + 1))
unfolding date_of year_at month_of
date_of_year y doy h = ground arith

doy_bound : (doe : ℕ) → doe < 146_097 → doe - start_of_year (year_of_era doe) < 366
unfolding year_of_era
doy_bound doe h = omega arith

-- 1 January 1970 and 31 December 9999 in their eras.
from_1970 :
    (doe : ℕ)
    → 135_080 ≤ doe
    → doe < 146_097
    → (369 ≤ year_of_era doe)
      × (year_of_era doe ≡ 369 → 306 ≤ doe - start_of_year (year_of_era doe))
unfolding year_of_era
from_1970 doe h k = (omega arith, λ e. rw e (omega arith))

before_10000 :
    (doe : ℕ)
    → doe < 146_037
    → (year_of_era doe ≤ 399)
      × (year_of_era doe ≡ 399 → doe - start_of_year (year_of_era doe) < 306)
unfolding year_of_era
before_10000 doe h = (omega arith, λ e. rw e (omega arith))

-- The days before the year 10000.
civil_years :
    (days : ℕ)
    → days < 2_932_897
    → (1970 ≤ (civil_from_days days).year) × ((civil_from_days days).year ≤ 9999)
unfolding civil_from_days
civil_years days h =
    let era = (days + 719_468) / 146_097 in
    let doe = (days + 719_468) % 146_097 in
    let yoe = year_of_era doe in
    let doy = doe - start_of_year yoe in
    let small : doe < 146_097 = omega arith in
    let (lo, hi, turn) = date_of_year (yoe + era * 400) doy (doy_bound doe small) in
    (
      elim (Bool-cases (ltb 4 era)) [
        | inl late ↦ ground arith
        | inr early ↦ ground (arith, from_1970 doe)
      ],
      elim (Bool-cases (ltb era 24)) [
        | inl early ↦ ground (arith, year_of_era-lt doe)
        | inr late ↦ ground (arith, before_10000 doe)
      ],
    )

-- The test reads each part of a text of this shape where it was written.
valid_parts :
    (year month day hour minute second : ℕ)
    → valid_utc_timestamp (
        four_digits year
        ++ (b'-'
            ∷ (two_digits month
                ++ (b'-'
                    ∷ (two_digits day
                        ++ (b'T'
                            ∷ (two_digits hour
                                ++ (b':'
                                    ∷ (two_digits minute
                                        ++ (b':' ∷ (two_digits second ++ (b'Z' ∷ []))))))))))))
      ≡ in_ranges
          (digits 0 (four_digits year))
          (digits 0 (two_digits month))
          (digits 0 (two_digits day))
          (digits 0 (two_digits hour))
          (digits 0 (two_digits minute))
          (digits 0 (two_digits second))
unfolding valid_utc_timestamp byte_is four_digits two_digits
valid_parts year month day hour minute second = refl

in_ranges_bounds :
    (year month day hour minute second : ℕ)
    → 1970 ≤ year
    → (1 ≤ month) × (month ≤ 12) × (1 ≤ day) × (day ≤ 31)
    → (hour < 24) × (minute < 60) × (second < 60)
    → in_ranges (some year) (some month) (some day) (some hour) (some minute) (some second) ≡ true
unfolding in_ranges
in_ranges_bounds year month day hour minute second y d t = ground arith

stamp_valid :
    (date : Date) (hour minute second : ℕ)
    → (1970 ≤ date.year) × (date.year ≤ 9999)
    → (1 ≤ date.month) × (date.month ≤ 12) × (1 ≤ date.day) × (date.day ≤ 31)
    → (hour < 24) × (minute < 60) × (second < 60)
    → valid_utc_timestamp (stamp date hour minute second) ≡ true
unfolding stamp
stamp_valid date hour minute second y d t =
    rw
      (
        padded_four date.year (omega arith) (omega arith),
        padded_two date.month (omega arith),
        padded_two date.day (omega arith),
        padded_two hour (omega arith),
        padded_two minute (omega arith),
        padded_two second (omega arith),
        valid_parts date.year date.month date.day hour minute second,
        digits_four date.year (omega arith),
        digits_two date.month (omega arith),
        digits_two date.day (omega arith),
        digits_two hour (omega arith),
        digits_two minute (omega arith),
        digits_two second (omega arith),
      )
      (in_ranges_bounds date.year date.month date.day hour minute second y.0 d t)

civil_days :
    (days : ℕ)
    → (1 ≤ (civil_from_days days).month)
      × ((civil_from_days days).month ≤ 12)
      × (1 ≤ (civil_from_days days).day)
      × ((civil_from_days days).day ≤ 31)
unfolding civil_from_days
civil_days days =
    let doe = (days + 719_468) % 146_097 in
    date_of_bounds (year_of_era doe + (days + 719_468) / 146_097 * 400)
      (doe - start_of_year (year_of_era doe)) (doy_bound doe (omega arith))

-- Every timestamp that is rendered before the year 10000 passes the strict test.
pub utc_timestamp_valid :
    (seconds : ℕ) → seconds < 253_402_300_800 → valid_utc_timestamp (utc_timestamp seconds) ≡ true
unfolding utc_timestamp
utc_timestamp_valid seconds h =
    stamp_valid (civil_from_days (seconds / 86_400)) (seconds % 86_400 / 3600)
      (seconds % 86_400 % 3600 / 60) (seconds % 86_400 % 60)
      (civil_years (seconds / 86_400) (omega arith)) (civil_days (seconds / 86_400))
      (omega arith, omega arith, omega arith)
