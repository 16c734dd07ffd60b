-- ===== src/Quota/Tests.antt =====
-- The quotas of django_smart_ratelimit/quota.py at concrete inputs: a zone without an offset whose
-- instants are microseconds since 1 January 2024.
use django_smart_ratelimit.Prelude.{
  ℕ, ◌+◌, ◌-◌, ◌/◌, ◌%◌, ◌≤◌, ◌≡◌, ◌≢◌, ◌↔◌, refl, true, some, List, [], ◌∷◌, Text, text_key,
  text_pair_key, codes, arith, leb, if◌then◌else◌,
}
use django_smart_ratelimit.Prelude.Dict
use django_smart_ratelimit.Prelude.Int.{pos}
use django_smart_ratelimit.Quota.Calendar.{
  Datetime, IsValid, stamp, ordinal, add_days, next_day, add_days-IsValid, ordinal-add_days,
  day_length, days_in_month, days_before_year, days_of_months,
}
use django_smart_ratelimit.Quota.Period.{
  Period, named, number, str_period, period_bounds, month_bounds, day_bounds, add_month,
}
use django_smart_ratelimit.Quota.Period.Bounds.{Encloses, period_bounds-Encloses}
use django_smart_ratelimit.Quota.Ledger.{
  Zone, Table, Info, bounds_at, consume_quota, get_quota_usage,
}
use django_smart_ratelimit.Quota.Ledger.Charges.{IsZone, used_at, charged_exactly, usage_agrees}
use django_smart_ratelimit.Quota.Ledger.Spending.{Request, granted, spend_bound}

abbrev new_year : Datetime
new_year = record { year = 2024; month = 1; day = 1; time = 0 }

new_year-IsValid : IsValid new_year
new_year-IsValid = unfold days_in_month in omega arith

-- The instant of a wall-clock time, which is 0 before 2024.
abbrev utc : Zone
utc = record {
  localtime = λ now. record (add_days new_year (now / day_length)) { time = now % day_length };
  instant = λ d. stamp d - stamp new_year;
}

stamp-localtime : (now : ℕ) → stamp (utc.localtime now) ≡ stamp new_year + now
unfolding stamp
stamp-localtime now =
    let local = add_days new_year (now / day_length) in
    let e : ordinal local ≡ ordinal new_year + now / day_length =
      ordinal-add_days new_year (now / day_length) new_year-IsValid in
    let same : ordinal (utc.localtime now) ≡ ordinal local = unfold ordinal in refl in
    let base : ordinal new_year ≡ 738886 = unfold ordinal days_before_year days_of_months in refl in
    rw (same, e, base) (omega arith)

utc-IsZone : IsZone utc
utc-IsZone = record {
  local_valid =
      λ now. let v = add_days-IsValid new_year (now / day_length) new_year-IsValid in ground arith;
  not_after = λ now d h. omega (arith, stamp-localtime now);
  after = λ now d h. omega (arith, stamp-localtime now);
}

-- 29 February 2024, 01:00.
abbrev leap_day : Datetime
leap_day = record { year = 2024; month = 2; day = 29; time = 3600000000 }

leap_month :
    month_bounds leap_day
    ≡ (record leap_day { day = 1; time = 0 }, record leap_day { month = 3; day = 1; time = 0 })
unfolding month_bounds
leap_month = refl

december_ends_year :
    add_month (record leap_day { month = 12 }) ≡ record leap_day { year = 2025; month = 1; day = 1 }
unfolding add_month
december_ends_year = refl

-- The quota of a day, and 5 hours into 2024.
abbrev day : Period
day = named (codes "day")

abbrev five : ℕ
five = 18000000000

thirty :
    (period_bounds (named (codes "30d")) leap_day ≡ period_bounds (number (pos 30)) leap_day)
    × (str_period (number (pos 30)) ≡ codes "30")
unfolding period_bounds str_period
thirty = (refl, refl)

period_bounds-Encloses_example :
    Encloses leap_day
      (record leap_day { day = 1; time = 0 }, record leap_day { month = 3; day = 1; time = 0 })
period_bounds-Encloses_example =
    period_bounds-Encloses (named (codes "month")) leap_day
      (record leap_day { day = 1; time = 0 }, record leap_day { month = 3; day = 1; time = 0 })
      (unfold days_in_month in omega arith) (unfold period_bounds month_bounds in refl)

-- A key that has used 6 of 10 asks for 3 more.
abbrev some_used : Table
some_used =
    (
      (codes "k", []),
      record {
        used = 6;
        limit = 10;
        period = codes "day";
        period_start = 0;
        reset_at = day_length;
      },
    )
    ∷ []

abbrev three_more : Info
three_more = record {
  used = 9;
  limit = 10;
  remaining = 1;
  reset_at = day_length;
  period = codes "day";
}

abbrev after_three : Table
after_three =
    (
      (codes "k", []),
      record {
        used = 9;
        limit = 10;
        period = codes "day";
        period_start = 0;
        reset_at = day_length;
      },
    )
    ∷ []

called :
    consume_quota utc some_used five (codes "k") 10 day [] 3 ≡ some (true, three_more, after_three)
unfolding consume_quota period_bounds add_days next_day days_in_month stamp ordinal days_before_year
    days_of_months Dict.get Dict.put str_period
called = refl

charged_exactly_example :
    let used = used_at (Dict.get some_used (codes "k", [])) five (codes "day") in
    ((true ≡ true) ↔ (used + 3 ≤ 10))
    × (9 ≡ used + 3)
    × (1 ≡ 10 - 9)
    × ((t : ℕ)
        → used_at (Dict.get after_three (codes "k", [])) t (codes "day")
          ≡ (if leb day_length t then 0 else 9))
    × ((other : Text × Text)
        → other ≢ (codes "k", [])
        → Dict.get after_three other ≡ Dict.get some_used other)
unfolding str_period
charged_exactly_example =
    charged_exactly utc some_used five (codes "k") 10 day [] 3 true three_more after_three called

usage_agrees_example :
    get_quota_usage after_three day_length (codes "k") []
    ≡ some (record three_more { used = 0; remaining = 10 })
usage_agrees_example =
    usage_agrees utc some_used five (codes "k") 10 day [] 3 true three_more after_three called
      day_length

-- Three requests for 4 of 10, with one of another key between them: the third is refused.
abbrev four_each : List Request
four_each =
    record { now = five + 1; key = codes "j"; cost = 4 }
    ∷ record { now = five + 2; key = codes "k"; cost = 4 }
    ∷ record { now = five + 3; key = codes "k"; cost = 4 }
    ∷ []

spend_bound_example :
    granted utc 10 day []
      (codes "k")
      []
      (record { now = five; key = codes "k"; cost = 4 } ∷ four_each)
    ≤ 10
spend_bound_example =
    spend_bound utc 10 day [] [] (record { now = five; key = codes "k"; cost = 4 }) four_each 0
      day_length (λ row found. unfold Dict.get in ground arith)
      (unfold bounds_at period_bounds day_bounds add_days next_day days_in_month stamp ordinal
          days_before_year days_of_months in
        refl)
      (omega arith)
