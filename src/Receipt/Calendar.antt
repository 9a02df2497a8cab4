-- ===== src/Receipt/Calendar.antt =====
-- The dates of `civil_from_days` (src/receipt.rs) against the rules of the calendar.
use contextmesh_rs.Common.{
  ℕ, suc, ◌+◌, ◌-◌, ◌*◌, ◌/◌, ◌%◌, ◌≤◌, ◌<◌, ◌≡◌, refl, Bool, not, ◌&&◌, ◌||◌, arith, ◌==◌, ltb,
  if◌then◌else◌, Bool-cases, inl, inr, ltb→lt,
}
use contextmesh_rs.Receipt.Time.{
  Date, year_of_era, start_of_year, month_of, year_at, date_of, civil_from_days,
}

-- The calendar, by its own rules.
unfoldable pub is_leap : ℕ → Bool
is_leap y = y % 4 == 0 && (not (y % 100 == 0) || y % 400 == 0)

unfoldable pub days_in_month : ℕ → ℕ → ℕ
unfolding is_leap
days_in_month y m =
    if m == 2
    then (if is_leap y then 29 else 28)
    else if m == 4 || (m == 6 || (m == 9 || m == 11))
    then 30
    else 31

unfoldable pub next_date : Date → Date
next_date t =
    if ltb t.day (days_in_month t.year t.month)
    then record { year = t.year; month = t.month; day = t.day + 1 }
    else if ltb t.month 12
    then record { year = t.year; month = t.month + 1; day = 1 }
    else record { year = t.year + 1; month = 1; day = 1 }

-- The days of the year that begins in March of `y`.
year_length : ℕ → ℕ
year_length y = if is_leap (y + 1) then 366 else 365

pub year_of_era-lt : (d : ℕ) → d < 146_097 → year_of_era d < 400
unfolding year_of_era
year_of_era-lt d h = omega arith

year_of_era_start : (d : ℕ) → d < 146_097 → start_of_year (year_of_era d) ≤ d
unfolding year_of_era
year_of_era_start d h = omega arith

year_of_era_end :
    (d : ℕ) → d < 146_097 → d < start_of_year (year_of_era d) + year_length (year_of_era d)
unfolding year_of_era year_length is_leap
year_of_era_end d h = ground arith

-- A day of the era lies in one of its years only.
year_of_era_unique :
    (d y : ℕ)
    → d < 146_097
    → y < 400
    → start_of_year y ≤ d
    → d < start_of_year y + year_length y
    → year_of_era d ≡ y
unfolding year_of_era year_length is_leap
year_of_era_unique d y h k lo hi = ground arith

-- The years of an era follow one another; the leap day of the last is the end of the era.
start_of_year_next : (y : ℕ) → y < 399 → start_of_year (y + 1) ≡ start_of_year y + year_length y
unfolding year_length is_leap
start_of_year_next y h = ground arith

-- The months but February, which ends the year, have their lengths from the formula of the code.
month_length :
    (y mp : ℕ)
    → mp < 11
    → days_in_month (year_at y mp) (month_of mp) ≡ (153 * (mp + 1) + 2) / 5 - (153 * mp + 2) / 5
unfolding days_in_month month_of
month_length y mp h = ground arith

february_length : (y : ℕ) → days_in_month (year_at y 11) (month_of 11) ≡ year_length y - 337
unfolding days_in_month year_at month_of year_length is_leap
february_length y = ground arith

year_length_bounds : (y : ℕ) → (365 ≤ year_length y) × (year_length y ≤ 366)
unfolding year_length
year_length_bounds y = ground arith

-- The month of a day of the year, and of the next day.
month_bounds :
    (doy mp : ℕ)
    → doy < 366
    → (5 * doy + 2) / 153 ≡ mp
    → ((153 * mp + 2) / 5 ≤ doy) × (doy < (153 * (mp + 1) + 2) / 5) × (mp ≤ 11)
month_bounds doy mp h e = omega arith

same_month :
    (doy mp : ℕ)
    → (153 * mp + 2) / 5 ≤ doy
    → doy < (153 * (mp + 1) + 2) / 5
    → mp ≤ 11
    → (5 * doy + 2) / 153 ≡ mp
same_month doy mp lo hi h = omega arith

-- The first day of the next month.
abbrev month_after : ℕ → ℕ → Date → Date
month_after y m t =
    if ltb m 12
    then record { year = t.year; month = t.month + 1; day = 1 }
    else record { year = t.year + 1; month = 1; day = 1 }

following_month :
    (y mp day : ℕ)
    → mp < 11
    → record { year = year_at y (mp + 1); month = month_of (mp + 1); day = 1 }
      ≡ month_after y (month_of mp) (record { year = year_at y mp; month = month_of mp; day = day })
unfolding year_at month_of
following_month y mp day h = ground arith

next_in_month :
    (y doy mp : ℕ)
    → doy - (153 * mp + 2) / 5 + 1 < days_in_month (year_at y mp) (month_of mp)
    → (153 * mp + 2) / 5 ≤ doy
    → (5 * doy + 2) / 153 ≡ mp
    → (5 * suc doy + 2) / 153 ≡ mp
    → date_of y (suc doy) ≡ next_date (date_of y doy)
unfolding date_of next_date
next_in_month y doy mp h lo e e' = rw (e, e') (ground arith)

next_month :
    (y doy mp : ℕ)
    → mp < 11
    → suc doy ≡ (153 * (mp + 1) + 2) / 5
    → (153 * mp + 2) / 5 ≤ doy
    → (5 * doy + 2) / 153 ≡ mp
    → (5 * suc doy + 2) / 153 ≡ mp + 1
    → date_of y (suc doy) ≡ next_date (date_of y doy)
unfolding date_of next_date
next_month y doy mp h last lo e e' =
    rw (e, e')
      (ground (arith, month_length y mp, following_month y mp (doy - (153 * mp + 2) / 5 + 1)))

next_day :
    (y doy mp : ℕ)
    → suc doy < year_length y
    → (5 * doy + 2) / 153 ≡ mp
    → date_of y (suc doy) ≡ next_date (date_of y doy)
next_day y doy mp more e =
    let (lo, hi, top) = month_bounds doy mp (omega (arith, (year_length_bounds y).1)) e in
    elim (Bool-cases (ltb (suc doy) ((153 * (mp + 1) + 2) / 5))) [
      | inl inside ↦
          let stays = same_month (suc doy) mp (omega arith) (ltb→lt _ _ inside) top in
          elim (Bool-cases (ltb mp 11)) [
            | inl early ↦ next_in_month y doy mp (ground (arith, month_length y mp)) lo e stays
            | inr late ↦
                let last : mp ≡ 11 = ground arith in
                next_in_month y doy mp
                  (rw last (ground (arith, february_length y, year_length_bounds y))) lo e stays
          ]
      | inr outside ↦
          let turns : suc doy ≡ (153 * (mp + 1) + 2) / 5 = ground arith in
          let early : mp < 11 = ground (arith, year_length_bounds y) in
          next_month y doy mp early turns lo e
            (same_month (suc doy) (mp + 1) (omega arith) (omega arith) (omega arith))
    ]

next_year : (y doy : ℕ) → suc doy ≡ year_length y → date_of (y + 1) 0 ≡ next_date (date_of y doy)
unfolding date_of next_date
next_year y doy last =
    let e : (5 * doy + 2) / 153 ≡ 11 = omega (arith, year_length_bounds y) in
    rw e (ground (arith, february_length y, year_length_bounds y))

-- The date of a day of an era.
date_in : ℕ → ℕ → Date
date_in era doe = date_of (year_of_era doe + era * 400) (doe - start_of_year (year_of_era doe))

year_length_era : (y era : ℕ) → year_length (y + era * 400) ≡ year_length y
unfolding year_length is_leap
year_length_era y era = ground arith

last_length : year_length 399 ≡ 366
unfolding year_length is_leap
last_length = refl

next_in_era :
    (era doe : ℕ) → suc doe < 146_097 → date_in era (suc doe) ≡ next_date (date_in era doe)
unfolding date_in
next_in_era era doe h =
    let y = year_of_era doe in
    let small : y < 400 = year_of_era-lt doe (omega arith) in
    let start : start_of_year y ≤ doe = year_of_era_start doe (omega arith) in
    elim (Bool-cases (ltb (suc doe) (start_of_year y + year_length y))) [
      | inl same ↦
          let stays : year_of_era (suc doe) ≡ y =
            year_of_era_unique (suc doe) y h small (omega arith) (ltb→lt _ _ same) in
          let more : suc (doe - start_of_year y) < year_length (y + era * 400) =
            ground (arith, year_length_era y era) in
          let shift : suc doe - start_of_year y ≡ suc (doe - start_of_year y) = omega arith in
          rw (stays, shift) (next_day (y + era * 400) (doe - start_of_year y) _ more refl)
      | inr next ↦
          let turns : suc doe ≡ start_of_year y + year_length y =
            ground (arith, year_of_era_end doe) in
          let inner : y < 399 = ground (arith, last_length, year_length_bounds y) in
          let first : start_of_year (y + 1) ≡ suc doe =
            omega (arith, start_of_year_next y inner, turns) in
          let moves : year_of_era (suc doe) ≡ y + 1 =
            year_of_era_unique (suc doe) (y + 1) h (omega arith) (omega (arith, first))
              (omega (arith, first, year_length_bounds (y + 1))) in
          let year : y + 1 + era * 400 ≡ y + era * 400 + 1 = omega arith in
          let day : suc doe - start_of_year (y + 1) ≡ 0 = omega (arith, first) in
          rw (moves, day, year)
            (next_year (y + era * 400) (doe - start_of_year y)
              (omega (arith, turns, start, year_length_era y era)))
    ]

next_era : (era : ℕ) → date_in (era + 1) 0 ≡ next_date (date_in era 146_096)
unfolding date_in year_of_era
next_era era =
    let year : year_of_era 0 + (era + 1) * 400 ≡ 399 + era * 400 + 1 = omega arith in
    rw year (next_year (399 + era * 400) 365 (omega (arith, last_length, year_length_era 399 era)))

-- The calendar of the code: the first day is 1 January 1970, and the date of each next day is the
-- next date of the Gregorian calendar, over months, leap years and centuries.
pub civil_from_days_next :
    (days : ℕ) → civil_from_days (suc days) ≡ next_date (civil_from_days days)
unfolding civil_from_days date_in
civil_from_days_next days =
    let era = (days + 719_468) / 146_097 in
    let doe = (days + 719_468) % 146_097 in
    elim (Bool-cases (ltb (suc doe) 146_097)) [
      | inl inside ↦
          let stays : (suc days + 719_468) / 146_097 ≡ era = ground arith in
          let steps : (suc days + 719_468) % 146_097 ≡ suc doe = ground arith in
          rw (stays, steps) (next_in_era era doe (ltb→lt _ _ inside))
      | inr outside ↦
          let moves : (suc days + 719_468) / 146_097 ≡ era + 1 = ground arith in
          let steps : (suc days + 719_468) % 146_097 ≡ 0 = ground arith in
          let last : doe ≡ 146_096 = ground arith in rw (moves, steps, last) (next_era era)
    ]

civil_epoch : civil_from_days 0 ≡ record { year = 1970; month = 1; day = 1 }
unfolding civil_from_days date_of year_of_era year_at month_of
civil_epoch = refl
