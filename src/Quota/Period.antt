-- ===== src/Quota/Period.antt =====
-- `_add_month` and `_period_bounds` of django_smart_ratelimit/quota.py. The year stays below 9999,
-- where the source's dates end.
pub mod Bounds
use django_smart_ratelimit.Prelude.{
  ℕ, zero, suc, ◌+◌, ◌/◌, ◌%◌, Option, none, some, List, [], ◌∷◌, ◌++◌, Text, text_key, codes, ◌==◌,
  ltb, nat_beq, if◌then◌else◌,
}
use django_smart_ratelimit.Prelude.Int.{ℤ, pos, negsuc}
use django_smart_ratelimit.Backends.Utils.Rates.{parse_int}
use django_smart_ratelimit.Quota.Calendar.{Datetime, add_days, sub_days, weekday}

-- A period is a text or an integer.
pub data Period : Type 0 where
  named : Text → Period
  number : ℤ → Period

decimal : ℕ → ℕ → Text → Text
decimal zero n t = t
decimal (suc fuel) n t =
    let digit = n % 10 + b'0' in
    let rest = decimal fuel (n / 10) (digit ∷ t) in if ltb n 10 then digit ∷ t else rest

-- `str(n)`; a number has at most as many digits as it counts, and one.
unfoldable pub str_int : ℤ → Text
unfolding decimal
str_int (pos n) = decimal (suc n) n []
str_int (negsuc n) = b'-' ∷ decimal (suc (suc n)) (suc n) []

-- `str(period)`
unfoldable pub str_period : Period → Text
unfolding str_int
str_period (named t) = t
str_period (number n) = str_int n

-- `period[:-1] if period.endswith("d") else period`
unfoldable pub drop_final_d : Text → Text
drop_final_d [] = []
drop_final_d (c ∷ []) = if nat_beq c b'd' then [] else c ∷ []
drop_final_d (c ∷ d ∷ t) = c ∷ drop_final_d (d ∷ t)

-- The day of the window's length; `none` is the ValueError.
unfoldable pub positive_days : Option ℤ → Option ℕ
positive_days (some (pos (suc n))) = some (suc n)
positive_days _ = none

unfoldable pub window_days : Period → Option ℕ
unfolding positive_days parse_int drop_final_d
window_days (named t) = positive_days (parse_int (drop_final_d t))
window_days (number n) = positive_days (some n)

unfoldable pub add_month : Datetime → Datetime
add_month d = record d { year = d.year + d.month / 12; month = d.month % 12 + 1; day = 1 }

unfoldable pub midnight : Datetime → Datetime
midnight d = record d { time = 0 }

unfoldable pub day_bounds : Datetime → ℕ → Datetime × Datetime
unfolding midnight
day_bounds local days = (midnight local, add_days (midnight local) days)

unfoldable pub week_bounds : Datetime → Datetime × Datetime
unfolding midnight
week_bounds local =
    let start = sub_days (midnight local) (weekday local) in (start, add_days start 7)

unfoldable pub month_bounds : Datetime → Datetime × Datetime
unfolding midnight add_month
month_bounds local = let start = record (midnight local) { day = 1 } in (start, add_month start)

unfoldable pub year_bounds : Datetime → Datetime × Datetime
unfolding midnight
year_bounds local =
    let start = record (midnight local) { month = 1; day = 1 } in
    (start, record start { year = start.year + 1 })

unfoldable pub rolling_bounds : Datetime → Option ℕ → Option (Datetime × Datetime)
rolling_bounds local none = none
rolling_bounds local (some days) = some (day_bounds local days)

-- The bounds of the period that holds a local time; `none` is the ValueError.
unfoldable pub period_bounds : Period → Datetime → Option (Datetime × Datetime)
unfolding rolling_bounds window_days
period_bounds (number n) local = rolling_bounds local (window_days (number n))
period_bounds (named t) local =
    if t == codes "day"
    then some (day_bounds local 1)
    else if t == codes "week"
    then some (week_bounds local)
    else if t == codes "month"
    then some (month_bounds local)
    else if t == codes "year"
    then some (year_bounds local)
    else rolling_bounds local (window_days (named t))
