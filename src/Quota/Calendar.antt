-- ===== src/Quota/Calendar.antt =====
-- The parts of Python's `datetime` and of `django.utils.timezone` that
-- django_smart_ratelimit/quota.py uses: dates of the Gregorian calendar, whole days added and
-- taken away, and the time zone as a parameter.
use django_smart_ratelimit.Prelude.{
  ℕ, zero, suc, ◌+◌, ◌-◌, ◌*◌, ◌/◌, ◌%◌, ◌≤◌, ◌<◌, ◌≡◌, refl, ap, Bool, not, ◌&&◌, ◌||◌, arith, ltb,
  nat_beq, if◌then◌else◌,
}

-- A wall-clock time: a date and the microsecond of the day.
pub record Datetime : Type 0 where
  pub year : ℕ
  pub month : ℕ
  pub day : ℕ
  pub time : ℕ

abbrev pub is_leap : ℕ → Bool
is_leap y = nat_beq (y % 4) 0 && (not (nat_beq (y % 100) 0) || nat_beq (y % 400) 0)

unfoldable pub days_in_month : ℕ → ℕ → ℕ
days_in_month y m =
    if nat_beq m 2
    then (if is_leap y then 29 else 28)
    else if nat_beq m 4 || nat_beq m 6 || nat_beq m 9 || nat_beq m 11
    then 30
    else 31

unfoldable pub days_before_year : ℕ → ℕ
days_before_year y = let p = y - 1 in p * 365 + p / 4 + p / 400 - p / 100

-- The days of the first `m` months.
unfoldable pub days_of_months : ℕ → ℕ → ℕ
days_of_months y zero = 0
days_of_months y (suc m) = days_of_months y m + days_in_month y (suc m)

-- `toordinal()`: 1 January of the year 1 is day 1.
unfoldable pub ordinal : Datetime → ℕ
ordinal d = days_before_year d.year + days_of_months d.year (d.month - 1) + d.day

abbrev pub day_length : ℕ
day_length = 86400000000

-- The order of wall-clock times.
unfoldable pub stamp : Datetime → ℕ
stamp d = ordinal d * day_length + d.time

pub record IsValid (d : Datetime) : Type 0 where
  pub year_pos : 1 ≤ d.year
  pub month_pos : 1 ≤ d.month
  pub month_le : d.month ≤ 12
  pub day_pos : 1 ≤ d.day
  pub day_le : d.day ≤ days_in_month d.year d.month
  pub time_lt : d.time < day_length

unfoldable pub next_day : Datetime → Datetime
next_day d =
    if ltb d.day (days_in_month d.year d.month)
    then record d { day = d.day + 1 }
    else if ltb d.month 12
    then record d { month = d.month + 1; day = 1 }
    else record d { year = d.year + 1; month = 1; day = 1 }

unfoldable pub previous_day : Datetime → Datetime
previous_day d =
    if ltb 1 d.day
    then record d { day = d.day - 1 }
    else if ltb 1 d.month
    then record d { month = d.month - 1; day = days_in_month d.year (d.month - 1) }
    else record d { year = d.year - 1; month = 12; day = 31 }

-- `d + timedelta(days=n)`
unfoldable pub add_days : Datetime → ℕ → Datetime
add_days d zero = d
add_days d (suc n) = add_days (next_day d) n

-- `d - timedelta(days=n)`
unfoldable pub sub_days : Datetime → ℕ → Datetime
sub_days d zero = d
sub_days d (suc n) = sub_days (previous_day d) n

-- `d.weekday()`: Monday is 0.
unfoldable pub weekday : Datetime → ℕ
weekday d = (ordinal d + 6) % 7

-- The months of a year have all its days.
pub days_before_next_year :
    (y : ℕ) → 1 ≤ y → days_before_year (y + 1) ≡ days_before_year y + days_of_months y 12
unfolding days_before_year days_of_months days_in_month
days_before_next_year y h = ground arith

pub days_of_month_pos : (y m : ℕ) → 28 ≤ days_in_month y m
unfolding days_in_month
days_of_month_pos y m = ground arith

pub days_of_next_month :
    (y m : ℕ) → 1 ≤ m → days_of_months y m ≡ days_of_months y (m - 1) + days_in_month y m
days_of_next_month y zero h = absurd (omega arith)
days_of_next_month y (suc m) h =
    unfold days_of_months in
    ap (λ (k : ℕ). days_of_months y k + days_in_month y (suc m)) (omega arith)

-- The next day is the next ordinal number.
pub ordinal-next_day : (d : Datetime) → IsValid d → ordinal (next_day d) ≡ ordinal d + 1
unfolding ordinal next_day
ordinal-next_day d v =
    let same : days_of_months d.year (d.month + 1 - 1) ≡ days_of_months d.year d.month =
      ap (days_of_months d.year) (omega arith) in
    let start : days_of_months (d.year + 1) (1 - 1) ≡ 0 = unfold days_of_months in refl in
    ground (
      arith,
      same,
      start,
      days_of_next_month d.year d.month,
      days_before_next_year d.year,
      ap (days_of_months d.year) {x = d.month} {y = 12},
    )

pub next_day-IsValid : (d : Datetime) → IsValid d → IsValid (next_day d)
unfolding next_day
next_day-IsValid d v = ground (
  arith,
  days_of_month_pos d.year (d.month + 1),
  days_of_month_pos d.year d.month,
  days_of_month_pos (d.year + 1) 1,
)

pub days_of_months_le : (y m : ℕ) → m ≤ 12 → days_of_months y m ≤ days_of_months y 12
days_of_months_le y m h = below y (12 - m) m (omega arith)
  where
    below : (y k m : ℕ) → m + k ≡ 12 → days_of_months y m ≤ days_of_months y 12
    below y zero m e = rw (← e) (omega (arith, ap (days_of_months y) {x = m} {y = m + 0}))
    below y (suc k) m e =
        let step : days_of_months y m ≤ days_of_months y (suc m) =
          unfold days_of_months in omega arith in
        omega (arith, step, below y k (suc m) (omega arith))

days_before_first_year : days_before_year 1 ≡ 0
unfolding days_before_year
days_before_first_year = refl

december : (y : ℕ) → days_in_month y 12 ≡ 31
unfolding days_in_month
december y = refl

-- Past the first day of the calendar, the day before is the ordinal number before.
pub ordinal-previous_day :
    (d : Datetime) → IsValid d → 1 < ordinal d → ordinal (previous_day d) + 1 ≡ ordinal d
unfolding ordinal previous_day
ordinal-previous_day d v h =
    let first : days_of_months d.year (1 - 1) ≡ 0 = unfold days_of_months in refl in
    ground (
      arith,
      first,
      ap (days_of_months d.year) {x = d.month} {y = 1},
      ap days_before_year {x = d.year} {y = 1},
      days_before_first_year,
      december (d.year - 1),
      days_of_next_month d.year (d.month - 1),
      days_of_next_month (d.year - 1) 12,
      days_before_next_year (d.year - 1),
    )

pub previous_day-IsValid : (d : Datetime) → IsValid d → 1 < ordinal d → IsValid (previous_day d)
unfolding previous_day ordinal
previous_day-IsValid d v h =
    let first : days_of_months d.year (1 - 1) ≡ 0 = unfold days_of_months in refl in
    ground (
      arith,
      first,
      ap (days_of_months d.year) {x = d.month} {y = 1},
      ap days_before_year {x = d.year} {y = 1},
      days_before_first_year,
      days_of_month_pos d.year (d.month - 1),
      december (d.year - 1),
    )

pub add_days-IsValid : (d : Datetime) (n : ℕ) → IsValid d → IsValid (add_days d n)
unfolding add_days
add_days-IsValid d zero v = v
add_days-IsValid d (suc n) v = add_days-IsValid (next_day d) n (next_day-IsValid d v)

pub ordinal-add_days : (d : Datetime) (n : ℕ) → IsValid d → ordinal (add_days d n) ≡ ordinal d + n
unfolding add_days
ordinal-add_days d zero v = omega arith
ordinal-add_days d (suc n) v =
    omega (arith, ordinal-add_days (next_day d) n (next_day-IsValid d v), ordinal-next_day d v)

pub time-add_days : (d : Datetime) (n : ℕ) → (add_days d n).time ≡ d.time
unfolding add_days next_day
time-add_days d zero = refl
time-add_days d (suc n) = ground (arith, time-add_days (next_day d) n)

pub sub_days-IsValid : (d : Datetime) (n : ℕ) → IsValid d → n < ordinal d → IsValid (sub_days d n)
unfolding sub_days
sub_days-IsValid d zero v h = v
sub_days-IsValid d (suc n) v h =
    let down = ordinal-previous_day d v (omega arith) in
    sub_days-IsValid (previous_day d) n (previous_day-IsValid d v (omega arith)) (omega arith)

pub ordinal-sub_days :
    (d : Datetime) (n : ℕ) → IsValid d → n < ordinal d → ordinal (sub_days d n) + n ≡ ordinal d
unfolding sub_days
ordinal-sub_days d zero v h = omega arith
ordinal-sub_days d (suc n) v h =
    let down = ordinal-previous_day d v (omega arith) in
    let valid = previous_day-IsValid d v (omega arith) in
    omega (arith, ordinal-sub_days (previous_day d) n valid (omega arith))

pub time-sub_days : (d : Datetime) (n : ℕ) → (sub_days d n).time ≡ d.time
unfolding sub_days previous_day
time-sub_days d zero = refl
time-sub_days d (suc n) = ground (arith, time-sub_days (previous_day d) n)
