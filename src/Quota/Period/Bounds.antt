-- ===== src/Quota/Period/Bounds.antt =====
-- The period of django_smart_ratelimit/quota.py, `_period_bounds`, contains its time.
use django_smart_ratelimit.Prelude.{
  ℕ, zero, suc, ◌+◌, ◌-◌, ◌/◌, ◌%◌, ◌≤◌, ◌<◌, ◌≡◌, refl, ap, ◌∙◌, Option, none, some, arith,
  Option-cases, Bool-cases, ltb, Text, text_key, codes, ◌==◌, inl, inr,
}
use django_smart_ratelimit.Prelude.Int.{ℤ, pos, negsuc}
use django_smart_ratelimit.Backends.Utils.Rates.{parse_int}
use django_smart_ratelimit.Quota.Calendar.{
  Datetime, IsValid, ordinal, stamp, days_of_months, days_before_next_year, days_of_next_month,
  days_of_month_pos, days_of_months_le, add_days, add_days-IsValid, ordinal-add_days, time-add_days,
  sub_days, sub_days-IsValid, ordinal-sub_days, time-sub_days, weekday,
}
use django_smart_ratelimit.Quota.Period.{
  drop_final_d, Period, named, number, positive_days, window_days, midnight, add_month, day_bounds,
  week_bounds, month_bounds, year_bounds, rolling_bounds, period_bounds,
}

-- Two days that bound a time: dates of the calendar at midnight, the first not after the time and
-- the second after it.
pub record Encloses (local : Datetime) (bounds : Datetime × Datetime) : Type 0 where
  pub start_valid : IsValid bounds.0
  pub reset_valid : IsValid bounds.1
  pub start_le : stamp bounds.0 ≤ stamp local
  pub before_reset : stamp local < stamp bounds.1

-- A time of a valid date lies between midnights when its day does.
encloses :
    (local a b : Datetime)
    → IsValid local
    → IsValid a
    → IsValid b
    → a.time ≡ 0
    → b.time ≡ 0
    → ordinal a ≤ ordinal local
    → ordinal local < ordinal b
    → Encloses local (a, b)
encloses local a b v va vb ta tb h k =
    unfold stamp in
    record {
      start_valid = va;
      reset_valid = vb;
      start_le = ground arith;
      before_reset = let t = v.time_lt in ground arith;
    }

module _ (local : Datetime) (v : IsValid local) where
  midnight-IsValid : IsValid (midnight local)
  unfolding midnight
  midnight-IsValid = ground arith

  ordinal-midnight : ordinal (midnight local) ≡ ordinal local
  unfolding midnight ordinal
  ordinal-midnight = refl

  day_bounds-Encloses : (days : ℕ) → 0 < days → Encloses local (day_bounds local days)
  unfolding day_bounds
  day_bounds-Encloses days h =
      let m = midnight local in
      encloses local m (add_days m days) v midnight-IsValid
        (add_days-IsValid m days midnight-IsValid) (unfold midnight in refl)
        (unfold midnight in time-add_days m days) (omega (arith, ordinal-midnight))
        (omega (arith, ordinal-midnight, ordinal-add_days m days midnight-IsValid))

  ordinal_pos : 1 ≤ ordinal local
  unfolding ordinal
  ordinal_pos = let d = v.day_pos in omega arith

  week_bounds-Encloses : Encloses local (week_bounds local)
  unfolding week_bounds
  week_bounds-Encloses =
      let m = midnight local in
      let k = weekday local in
      let small : k < ordinal m = unfold weekday in omega (arith, ordinal-midnight, ordinal_pos) in
      let start = sub_days m k in
      let valid : IsValid start = sub_days-IsValid m k midnight-IsValid small in
      let back = ordinal-sub_days m k midnight-IsValid small in
      let week : k < 7 = unfold weekday in omega arith in
      encloses local start (add_days start 7) v valid (add_days-IsValid start 7 valid)
        (unfold midnight in time-sub_days m k)
        (unfold midnight in time-add_days start 7 ∙ time-sub_days m k)
        (omega (arith, ordinal-midnight))
        (omega (arith, ordinal-midnight, ordinal-add_days start 7 valid))

  first_of_month-IsValid : IsValid (record local { day = 1; time = 0 })
  first_of_month-IsValid = ground (arith, days_of_month_pos local.year local.month)

  add_month-IsValid : IsValid (add_month (record local { day = 1; time = 0 }))
  unfolding add_month
  add_month-IsValid =
      ground (arith, days_of_month_pos (local.year + local.month / 12) (local.month % 12 + 1))

  -- The first of the next month comes after every day of a month.
  ordinal-add_month : ordinal local < ordinal (add_month (record local { day = 1; time = 0 }))
  unfolding ordinal add_month
  ordinal-add_month =
      let y = local.year in
      let m = local.month in
      let whole = days_of_next_month y m in
      let next = days_before_next_year y in
      elim (Bool-cases (ltb m 12)) [
        | inl earlier ↦
            let year : y + m / 12 ≡ y = ground arith in
            let months : m % 12 + 1 - 1 ≡ m = ground arith in rw (year, months) (ground arith)
        | inr december ↦
            let year : y + m / 12 ≡ y + 1 = ground arith in
            let months : m % 12 + 1 - 1 ≡ 0 = ground arith in
            let none_yet : days_of_months (y + 1) 0 ≡ 0 = unfold days_of_months in refl in
            rw (year, months) (ground (arith, none_yet, ap (days_of_months y) {x = m} {y = 12}))
      ]

  month_bounds-Encloses : Encloses local (month_bounds local)
  unfolding month_bounds midnight
  month_bounds-Encloses =
      let start = record local { day = 1; time = 0 } in
      encloses local start (add_month start) v first_of_month-IsValid add_month-IsValid refl
        (unfold add_month in refl) (unfold ordinal in omega arith) ordinal-add_month

  year_bounds-Encloses : Encloses local (year_bounds local)
  unfolding year_bounds midnight
  year_bounds-Encloses =
      let start = record local { month = 1; day = 1; time = 0 } in
      let january : days_of_months local.year (1 - 1) ≡ 0 = unfold days_of_months in refl in
      let new_year : days_of_months (local.year + 1) (1 - 1) ≡ 0 = unfold days_of_months in refl in
      encloses local start (record start { year = local.year + 1 }) v
        (ground (arith, days_of_month_pos local.year 1))
        (ground (arith, days_of_month_pos (local.year + 1) 1)) refl refl
        (unfold ordinal in omega (arith, january))
        (unfold ordinal in
          ground (
            arith,
            january,
            new_year,
            days_before_next_year local.year,
            days_of_next_month local.year local.month,
            days_of_months_le local.year local.month,
          ))

positive : (n : Option ℤ) (days : ℕ) → positive_days n ≡ some days → 0 < days
unfolding positive_days
positive (some (pos (suc n))) days e = ground arith
positive (some (pos zero)) days e = ground arith
positive (some (negsuc n)) days e = ground arith
positive none days e = ground arith

module _ (local : Datetime) (bounds : Datetime × Datetime) (v : IsValid local) where
  Encloses-some :
      (b : Datetime × Datetime) → some b ≡ some bounds → Encloses local b → Encloses local bounds
  Encloses-some b e h = let same : b ≡ bounds = cc in rw (← same) h

  window_pos : (p : Period) (n : ℕ) → window_days p ≡ some n → 0 < n
  unfolding window_days
  window_pos (named t) n e = positive (parse_int (drop_final_d t)) n e
  window_pos (number k) n e = positive (some k) n e

  rolling_bounds-Encloses :
      (p : Period) → rolling_bounds local (window_days p) ≡ some bounds → Encloses local bounds
  unfolding rolling_bounds
  rolling_bounds-Encloses p e = elim (Option-cases (window_days p)) [
    | inl invalid ↦ absurd (ground arith)
    | inr (days, given) ↦
        Encloses-some (day_bounds local days) (rw given at e)
          (day_bounds-Encloses local v days (window_pos p days given))
  ]

  named-Encloses : (t : Text) → period_bounds (named t) local ≡ some bounds → Encloses local bounds
  unfolding period_bounds
  named-Encloses t e = elim (Bool-cases (t == codes "day")) [
    | inl day ↦
        Encloses-some (day_bounds local 1) (rw day at e)
          (day_bounds-Encloses local v 1 (omega arith))
    | inr not_day ↦ elim (Bool-cases (t == codes "week")) [
      | inl week ↦
          Encloses-some (week_bounds local) (rw (not_day, week) at e) (week_bounds-Encloses local v)
      | inr not_week ↦ elim (Bool-cases (t == codes "month")) [
        | inl month ↦
            Encloses-some (month_bounds local) (rw (not_day, not_week, month) at e)
              (month_bounds-Encloses local v)
        | inr not_month ↦ elim (Bool-cases (t == codes "year")) [
          | inl year ↦
              Encloses-some (year_bounds local) (rw (not_day, not_week, not_month, year) at e)
                (year_bounds-Encloses local v)
          | inr not_year ↦
              rolling_bounds-Encloses (named t) (rw (not_day, not_week, not_month, not_year) at e)
        ]
      ]
    ]
  ]

-- Whatever the period is, if it is one at all it contains the time: its bounds are midnights of
-- the calendar, the first is not after the time and the second, the reset, is after it.
pub period_bounds-Encloses :
    (p : Period) (local : Datetime) (bounds : Datetime × Datetime)
    → IsValid local
    → period_bounds p local ≡ some bounds
    → Encloses local bounds
period_bounds-Encloses (named t) local bounds v e = named-Encloses local bounds v t e
period_bounds-Encloses (number n) local bounds v e =
    rolling_bounds-Encloses local bounds v (number n) (unfold period_bounds in e)
