-- ===== src/Adaptive/Tests.antt =====
-- Adaptive limits (django_smart_ratelimit/adaptive.py) at concrete inputs.
use django_smart_ratelimit.Prelude.{◌/◌, ◌≤◌, ◌≡◌, refl, none, some, [], ◌∷◌, max, length, arith}
use django_smart_ratelimit.Prelude.Dict
use django_smart_ratelimit.Adaptive.Quotient.{quotient, div_q, sub_q}
use django_smart_ratelimit.Adaptive.Indicators.{
  System, load_of, as_indicator, LoadIndicator, latency, latency_load, record_latency,
}
use django_smart_ratelimit.Adaptive.Indicators.Range.{load_of-IsLoad, IsSystem}
use django_smart_ratelimit.Adaptive.Limiter.{
  new_limiter, get_effective_limit, calculate_effective_limit, history_max_size, interpolated,
}
use django_smart_ratelimit.Adaptive.Limiter.Bounds.{AreThresholds, more_load_no_higher_limit}
use django_smart_ratelimit.Adaptive.Limiter.Updates.{IsLoad, AllLoads}
use django_smart_ratelimit.Adaptive.Limiter.Runs.{ask_all, always_in_range}

-- A processor that is busy for 80 of 100.
abbrev busy : System
busy = record {
  cpu_percent = some (quotient 80 1);
  memory_percent = none;
  load_avg = none;
  cpu_count = none;
  hour = 12;
}

abbrev slow : LoadIndicator
slow = latency (record {
  target_latency = 100;
  max_latency = 1000;
  window_size = 2;
  latencies = 400 ∷ 700 ∷ [];
})

-- The mean of 400 and 700 stands in the middle of the range, and the oldest of three latencies goes.
half :
    (load_of slow busy ≡ quotient 900 1800)
    × ((record_latency
          (record {
            target_latency = 1;
            max_latency = 2;
            window_size = 2;
            latencies = 400 ∷ 700 ∷ [];
          })
          5).latencies
        ≡ 700 ∷ 5 ∷ [])
unfolding load_of latency_load record_latency div_q sub_q
half = (refl, refl)

-- Halfway between the thresholds the limit is halfway between its bounds.
midway : calculate_effective_limit 10 100 (quotient 3 10) (quotient 7 10) (quotient 1 2) ≡ 55
unfolding calculate_effective_limit interpolated div_q sub_q
midway = refl

thresholds : AreThresholds (quotient 3 10) (quotient 7 10)
thresholds = omega arith

busy-IsSystem : IsSystem busy
busy-IsSystem = record {
  cpu_den = λ q e. ground arith;
  memory_den = λ q e. ground arith;
  avg_den = λ q e. ground arith;
}

more_load_no_higher_limit_example :
    calculate_effective_limit 10 100 (quotient 3 10) (quotient 7 10) (quotient 3 5)
    ≤ calculate_effective_limit 10 100 (quotient 3 10) (quotient 7 10) (quotient 1 2)
more_load_no_higher_limit_example =
    more_load_no_higher_limit 10 100 (quotient 3 10) (quotient 7 10) (omega arith) thresholds
      (quotient 1 2) (quotient 3 5) (omega arith) (omega arith) (omega arith)

slow-AllLoads : (s : System) → AllLoads s (as_indicator slow ∷ [])
unfolding as_indicator
slow-AllLoads s = (
  λ q e.
      let same : load_of slow busy ≡ q = unfold load_of in cc in
      rw (← same) (load_of-IsLoad slow busy tt busy-IsSystem),
  tt,
)

always_in_range_example :
    let limiter =
      ask_all
        (new_limiter 100 none none
          (as_indicator slow ∷ [])
          []
          (quotient 3 10)
          (quotient 7 10)
          (quotient 3 10)
          1000)
        ((busy, 2000) ∷ (busy, 4000) ∷ []) in
    let (limiter', limit) = get_effective_limit limiter busy 6000 in
    (max 1 (100 / 10) ≤ limit)
    × (limit ≤ 100)
    × IsLoad limiter'.current_load
    × (length limiter'.load_history ≤ history_max_size)
always_in_range_example =
    always_in_range 100 (as_indicator slow ∷ []) [] (quotient 3 10) (quotient 7 10) (quotient 3 10)
      1000 ((busy, 2000) ∷ (busy, 4000) ∷ []) busy 6000 (omega arith) thresholds
      (record { positive_den = omega arith; le_one = omega arith })
      (λ name w e. unfold Dict.get in ground arith) slow-AllLoads
